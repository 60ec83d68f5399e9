-- ===== src/Runtime/Commands/Stuck.antt =====
-- A job that Telegram limited without a time to resume.
use telegramv.Prelude.{
  ℕ, ◌≡◌, ◌≢◌, refl, sym, subst, ◌∙◌, true, false, Option, none, some, arith, ◌==◌, find, is_some,
  find-is_some,
}
use telegramv.Core.{JobState}
use telegramv.Storage.{JobRow}
use telegramv.Jobs
use telegramv.Jobs.{has_nonterminal_jobs, is_terminal, sql_eq}
use telegramv.Accounts
use telegramv.Runtime.Commands.{
  Session, accepted, refused, start_migration, resume_migration, is_running, running_executor,
  is_resumable, is_ready,
}
use telegramv.Runtime.Commands.Launch.{resume-Launched, start-Launched}

neither :
    (o : Option JobRow) (row row' : JobRow)
    → o ≡ some row
    → row.state ≡ JobState.rate_limited
    → o ≡ some row'
    → (is_ready row' ≡ false) × (is_resumable row' ≡ false)
unfolding is_ready is_resumable
neither o row row' e state e' =
    subst
      (λ x. elim x as (λ _. Type 0) [
        | none ↦ Unit
        | some r ↦ (is_ready r ≡ false) × (is_resumable r ≡ false)
      ])
      (sym e ∙ e') (rw state (refl, refl))

-- A job of an account that is in the state RATE_LIMITED and that no executor runs cannot be
-- started, resumed, paused or stopped by any command, and the account cannot be deleted.
pub rate_limited_stuck :
    (job_id account_id other interval : ℕ) (s s' : Session) (row : JobRow)
    → Jobs.get job_id s.db ≡ some row
    → row.state ≡ JobState.rate_limited
    → row.account_id ≡ some account_id
    → is_running job_id s.executors ≡ false
    → (start_migration job_id other interval s ≢ accepted s')
      × (resume_migration job_id interval s ≢ accepted s')
      × (running_executor job_id s ≡ refused "Migration job is not currently running")
      × (has_nonterminal_jobs account_id s.db ≡ true)
      × (Accounts.delete account_id s.db ≡ none)
unfolding Jobs.get is_ready is_resumable running_executor has_nonterminal_jobs is_terminal
    Accounts.delete
rate_limited_stuck job_id account_id other interval s s' row got state owner idle =
    let held : is_some (find (Accounts.is_open account_id) s.db.jobs) ≡ true =
      find-is_some (λ r. r.id == job_id) (Accounts.is_open account_id) row s.db.jobs got
        (rw (owner, state) (ground arith)) in
    (
      λ h.
          let (_, row', got', _, ready, _, _, _) = start-Launched job_id other interval s s' h in
          ground (arith, (neither (Jobs.get job_id s.db) row row' got state got').0, ready),
      λ h.
          let (_, row', got', _, resumable, _, _, _, _) = resume-Launched job_id interval s s' h in
          ground (arith, (neither (Jobs.get job_id s.db) row row' got state got').1, resumable),
      ground arith,
      held,
      rw held refl,
    )
