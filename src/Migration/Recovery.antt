-- ===== src/Migration/Recovery.antt =====
-- src/tms/migration/recovery.py. `now` is the wall clock, and a stored deadline is a time that
-- `datetime.fromisoformat` reads, with its time zone.
pub mod Restart
use telegramv.Prelude.{
  ℕ, Bool, true, false, not, ◌&&◌, ◌||◌, List, [], ◌∷◌, ◌++◌, Option, none, some, ltb,
  if◌then◌else◌, is_some, or_else,
}
use telegramv.Core.{JobState}
use telegramv.Storage.{Database, JobRow, Json, JsonValue, json_set}
use telegramv.Jobs
use telegramv.Jobs.{StateOptions, recoverable, get_checkpoint}

-- The server's deadline of a waiting row is still ahead.
unfoldable pub still_waits : ℕ → JobRow → Bool
still_waits now row = elim row.state [
  | JobState.waiting_server ↦ elim row.waiting_until [ none ↦ false | some until ↦ ltb now until ]
  | _ ↦ false
]

unfoldable pub was_active : JobRow → Bool
was_active row = elim row.state [
  | JobState.running ↦ true
  | JobState.waiting_server ↦ true
  | _ ↦ false
]

unfoldable pub restart_options : Json → StateOptions
restart_options checkpoint = record {
  waiting_until = none;
  checkpoint = some (json_set "recovered_after_restart" (JsonValue.flag true) checkpoint);
  clear_waiting = false;
}

normalize_row : ℕ → ℕ → JobRow → Database → Database
unfolding still_waits was_active restart_options
normalize_row now job_id row db =
    if not (still_waits now row) && was_active row
    then Jobs.set_state job_id JobState.paused (restart_options (get_checkpoint job_id db)) now db
    else db

-- One round of the loop: the database, and whether the job is recovered.
unfoldable pub normalize_job : ℕ → ℕ → Database → Database × Bool
unfolding normalize_row
normalize_job now job_id db = elim (Jobs.get job_id db) [
  | none ↦ (db, false)
  | some row ↦ (normalize_row now job_id row db, true)
]

unfoldable pub normalize_jobs : ℕ → List ℕ → Database → Database × List ℕ
unfolding normalize_job
normalize_jobs now [] db = (db, [])
normalize_jobs now (job_id ∷ ids) db =
    let round = normalize_job now job_id db in
    let rest = normalize_jobs now ids round.0 in
    (rest.0, if round.1 then job_id ∷ rest.1 else rest.1)

unfoldable pub normalize_after_restart : ℕ → Database → Database × List ℕ
unfolding normalize_jobs
normalize_after_restart now db = normalize_jobs now (recoverable db) db
