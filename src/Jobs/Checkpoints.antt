-- ===== src/Jobs/Checkpoints.antt =====
-- What the checkpoint of a job is after a write that gives it one.
use telegramv.Prelude.{
  String, ℕ, ◌≡◌, refl, subst, Bool, List, ◌∷◌, Option, none, some, ◌==◌, find, update_where,
  find-update_where,
}
use telegramv.Core.{JobState}
use telegramv.Storage.{Database, JobRow, JsonValue, Json}
use telegramv.Jobs.{
  ItemUpdate, StateOptions, get, get_checkpoint, row_checkpoint, set_row_state, set_state,
}
use telegramv.Jobs.Items.{update_items_batch, apply_updates, set_counts, replace_checkpoint}

given_checkpoint :
    (job_id : ℕ) (f : JobRow → JobRow) (entries : Json) (rows : List JobRow) (row : JobRow)
    → ((r : JobRow) → (f r).id ≡ r.id)
    → ((r : JobRow) → (f r).checkpoint ≡ some entries)
    → find (λ r. r.id == job_id) (update_where (λ r. r.id == job_id) f rows) ≡ some row
    → row_checkpoint (some row) ≡ entries
unfolding row_checkpoint
given_checkpoint job_id f entries rows row same given h =
    let (r, e) = find-update_where (λ r. r.id == job_id) f (λ r k. rw (same r) k) row rows h in
    let c : row.checkpoint ≡ some entries =
      subst (λ o. elim o as (λ _. Type 0) [ none ↦ Unit | some x ↦ x.checkpoint ≡ some entries ]) e
        (given r) in
    rw c refl

pub batch-checkpoint :
    (job_id now : ℕ) (updates : List ItemUpdate) (e : String × JsonValue) (entries : Json)
    (db : Database) (row : JobRow)
    → get job_id (update_items_batch job_id updates (some (e ∷ entries)) now db) ≡ some row
    → get_checkpoint job_id (update_items_batch job_id updates (some (e ∷ entries)) now db)
      ≡ e ∷ entries
unfolding get get_checkpoint update_items_batch set_counts replace_checkpoint
batch-checkpoint job_id now updates e entries db row h = rw h (
    given_checkpoint job_id
      (set_counts job_id (apply_updates job_id now updates db.items) (some (e ∷ entries)))
      (e ∷ entries) db.jobs row (λ r. refl) (λ r. refl) h)

pub state-checkpoint :
    (job_id now : ℕ) (state : JobState) (until : Option ℕ) (entries : Json) (clear : Bool)
    (db : Database) (row : JobRow)
    → let options : StateOptions = record {
      waiting_until = until;
      checkpoint = some entries;
      clear_waiting = clear;
    } in
      get job_id (set_state job_id state options now db) ≡ some row
      → get_checkpoint job_id (set_state job_id state options now db) ≡ entries
unfolding get get_checkpoint set_state set_row_state
state-checkpoint job_id now state until entries clear db row h = rw h (
    given_checkpoint job_id
      (set_row_state state
        (record { waiting_until = until; checkpoint = some entries; clear_waiting = clear }) now)
      entries db.jobs row (λ r. refl) (λ r. refl) h)
