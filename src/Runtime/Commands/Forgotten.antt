-- ===== src/Runtime/Commands/Forgotten.antt =====
-- The action of a plan after its job has run.
use telegramv.Prelude.{ℕ, ◌≡◌, sym, ◌∙◌, ap, List, [], ◌∷◌, Option, some, false, arith}
use telegramv.Core.{JobState}
use telegramv.Storage.{json_get}
use telegramv.Jobs.{ItemUpdate, set_state}
use telegramv.Jobs.Items.{update_items_batch}
use telegramv.Jobs.Checkpoints.{batch-checkpoint, state-checkpoint}
use telegramv.Migration.Machine.{Action}
use telegramv.Migration.Executor.{batch_checkpoint, retry_checkpoint}
use telegramv.Runtime.Commands.{Session, Executor, accepted, resume_migration, action_of}
use telegramv.Runtime.Commands.Launch.{resume-Launched}

-- The writes of an executor that give its job a checkpoint: a flush of its results, and a state that
-- is set together with the checkpoint of a candidate that is to be tried again.
pub data Writes (job_id : ℕ) : Session → Session → Type 0 where
  flush :
      (s : Session) (u : ItemUpdate) (us : List ItemUpdate) (now : ℕ)
      → Writes job_id s (record s {
        db = update_items_batch job_id (u ∷ us) (some (batch_checkpoint (u ∷ us))) now s.db;
      })
  interrupt :
      (s : Session) (state : JobState) (until : Option ℕ) (ordinal now : ℕ)
      → Writes job_id s (record s {
        db =
            set_state job_id state
              (record {
                waiting_until = until;
                checkpoint = some (retry_checkpoint ordinal);
                clear_waiting = false;
              })
              now
              s.db;
      })

-- Whatever action the job was planned with, directly after such a write an accepted resumption adds
-- an executor that invites.
pub resume_forgets :
    (job_id interval : ℕ) (s t s' : Session)
    → Writes job_id s t
    → resume_migration job_id interval t ≡ accepted s'
    → (e : Executor) × (s'.executors ≡ e ∷ s.executors) × (e.action ≡ Action.invite)
unfolding batch_checkpoint retry_checkpoint action_of json_get
resume_forgets job_id interval s t s' (flush _ u us now) h =
    let (_, row, got, _, _, account_id, _, _, l) = resume-Launched job_id interval t s' h in
    let a : some Action.invite ≡ some l.executor.action =
      ap (λ c. action_of (json_get "action" c))
        (sym (batch-checkpoint job_id now (u ∷ us) _ [] s.db row got))
      ∙ l.action in
    (l.executor, l.added, ground arith)
resume_forgets job_id interval s t s' (interrupt _ state until ordinal now) h =
    let (_, row, got, _, _, account_id, _, _, l) = resume-Launched job_id interval t s' h in
    let a : some Action.invite ≡ some l.executor.action =
      ap (λ c. action_of (json_get "action" c))
        (sym
          (state-checkpoint job_id now state until (retry_checkpoint ordinal) false s.db row got))
      ∙ l.action in
    (l.executor, l.added, ground arith)
