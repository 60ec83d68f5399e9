-- ===== src/Jobs.antt =====
-- src/tms/jobs/models.py, state_machine.py, repository.py and v12_repository.py: the job
-- repository, but for the operations on migration items (Jobs/Items). An operation is the transaction that the repository hands to
-- the database writer; `now` is SQLite's CURRENT_TIMESTAMP.
pub mod Items
pub mod Waits
pub mod Rows
pub mod Checkpoints
use telegramv.Prelude.{
  ℕ, ℤ, ◌+◌, min, max, Bool, true, false, ◌&&◌, ◌||◌, not, List, [], ◌∷◌, ◌++◌, map, Option, none,
  some, String, Text, ◌==◌, ltb, if◌then◌else◌, select, find, update_where, count_where, sort_by,
  take, length, or_else, is_some,
}
use mathlib.Core.List.{reverse}
use telegramv.Core.{JobState, JobType, MigrationItemState, TargetMemberState, InviteResultCode}
use telegramv.Storage.{
  JobRow, ItemRow, EventRow, MemberRow, PeerRow, Database, Json, JsonValue, Message,
}

-- jobs/models.py
pub record Job : Type 0 where
  pub job_type : JobType
  pub state : JobState
  pub account_id : Option ℕ
  pub source_dataset_id : Option ℕ
  pub target_group_id : Option ℕ
  pub total : ℕ

pub record ItemUpdate : Type 0 where
  pub ordinal : ℕ
  pub state : MigrationItemState
  pub attempts : ℕ
  pub error_code : Option InviteResultCode
  pub error_text : Option String

-- `a = ?` in SQL, where NULL equals nothing.
abbrev pub sql_eq : Option ℕ → ℕ → Bool
sql_eq none n = false
sql_eq (some m) n = m == n

unfoldable pub new_row : ℕ → Job → JobRow
new_row id job = record {
  id = id;
  job_type = job.job_type;
  state = job.state;
  account_id = job.account_id;
  source_dataset_id = job.source_dataset_id;
  target_group_id = job.target_group_id;
  total = job.total;
  processed = 0;
  success = 0;
  skipped = 0;
  failed = 0;
  waiting_until = none;
  checkpoint = none;
  started_at = none;
  finished_at = none;
}

unfoldable pub create : Job → Database → Database × ℕ
unfolding new_row
create job db = (
  record db { jobs = db.jobs ++ new_row db.next_job job ∷ []; next_job = db.next_job + 1 },
  db.next_job,
)

unfoldable pub get : ℕ → Database → Option JobRow
get job_id db = find (λ row. row.id == job_id) db.jobs

unfoldable pub list_recent : ℕ → Database → List JobRow
list_recent limit db = take (max 1 (min 1000 limit)) (reverse (sort_by (λ row. row.id) db.jobs))

-- jobs/state_machine.py
unfoldable pub is_terminal : JobState → Bool
is_terminal JobState.completed = true
is_terminal JobState.completed_with_errors = true
is_terminal JobState.failed = true
is_terminal JobState.cancelled = true
is_terminal _ = false

unfoldable pub has_nonterminal_jobs : ℕ → Database → Bool
unfolding is_terminal
has_nonterminal_jobs account_id db =
    is_some (find (λ row. sql_eq row.account_id account_id && not (is_terminal row.state)) db.jobs)

unfoldable pub is_waiting : JobState → Bool
is_waiting JobState.waiting_server = true
is_waiting _ = false

unfoldable pub is_waiting_or_paused : JobState → Bool
is_waiting_or_paused JobState.waiting_server = true
is_waiting_or_paused JobState.paused = true
is_waiting_or_paused _ = false

later_wait : Option ℕ → Option ℕ → Option ℕ
later_wait none later = later
later_wait (some t) none = some t
later_wait (some t) (some u) = some (max t u)

-- The greatest `waiting_until` of the rows that a test lets through, NULL left aside.
latest_wait : (JobRow → Bool) → List JobRow → Option ℕ
unfolding later_wait
latest_wait test [] = none
latest_wait test (row ∷ rows) =
    let later = latest_wait test rows in
    if test row then later_wait row.waiting_until later else later

-- `JobRepository.account_waiting_until`
unfoldable pub base_waiting_until : ℕ → Database → Option ℕ
unfolding latest_wait is_waiting_or_paused
base_waiting_until account_id db =
    latest_wait (λ row. sql_eq row.account_id account_id && is_waiting_or_paused row.state) db.jobs

-- `V12JobRepository.account_waiting_until`, which the application uses
unfoldable pub account_waiting_until : ℕ → Database → Option ℕ
unfolding latest_wait is_waiting
account_waiting_until account_id db =
    latest_wait (λ row. sql_eq row.account_id account_id && is_waiting row.state) db.jobs

-- The arguments of `submit_set_state` beside the job and its state.
pub record StateOptions : Type 0 where
  pub waiting_until : Option ℕ
  pub checkpoint : Option Json
  pub clear_waiting : Bool

abbrev pub no_options : StateOptions
no_options = record { waiting_until = none; checkpoint = none; clear_waiting = false }

abbrev pub clearing : StateOptions
clearing = record { waiting_until = none; checkpoint = none; clear_waiting = true }

unfoldable pub started : JobState → ℕ → Option ℕ → Option ℕ
started JobState.running now before = some (or_else before now)
started _ now before = before

unfoldable pub set_row_state : JobState → StateOptions → ℕ → JobRow → JobRow
unfolding started is_terminal
set_row_state state options now row = record row {
  state = state;
  waiting_until =
      if is_some options.waiting_until || options.clear_waiting
      then options.waiting_until
      else row.waiting_until;
  checkpoint = if is_some options.checkpoint then options.checkpoint else row.checkpoint;
  started_at = started state now row.started_at;
  finished_at = if is_terminal state then some now else row.finished_at;
}

unfoldable pub set_state : ℕ → JobState → StateOptions → ℕ → Database → Database
unfolding set_row_state
set_state job_id state options now db = record db {
  jobs = update_where (λ row. row.id == job_id) (set_row_state state options now) db.jobs;
}

unfoldable pub set_checkpoint : ℕ → Json → Database → Database
set_checkpoint job_id checkpoint db = record db {
  jobs =
      update_where (λ row. row.id == job_id) (λ row. record row { checkpoint = some checkpoint })
        db.jobs;
}

unfoldable pub add_event : ℕ → String → String → Option Message → Option ℕ → Database → Database
add_event job_id level event_code message member_id db = record db {
  job_events =
      db.job_events
      ++ record {
        job_id = job_id;
        level = level;
        event_code = event_code;
        member_id = member_id;
        message = message;
      }
        ∷ [];
}

-- The five counters; a missing row counts as 0.
pub record Summary : Type 0 where
  pub total : ℕ
  pub processed : ℕ
  pub success : ℕ
  pub skipped : ℕ
  pub failed : ℕ

row_summary : Option JobRow → Summary
row_summary none = record { total = 0; processed = 0; success = 0; skipped = 0; failed = 0 }
row_summary (some row) = record {
  total = row.total;
  processed = row.processed;
  success = row.success;
  skipped = row.skipped;
  failed = row.failed;
}

unfoldable pub summary : ℕ → Database → Summary
unfolding row_summary get
summary job_id db = row_summary (get job_id db)

row_checkpoint : Option JobRow → Json
row_checkpoint none = []
row_checkpoint (some row) = or_else row.checkpoint []

unfoldable pub get_checkpoint : ℕ → Database → Json
unfolding row_checkpoint get
get_checkpoint job_id db = row_checkpoint (get job_id db)

unfoldable pub is_recoverable : JobState → Bool
is_recoverable JobState.running = true
is_recoverable JobState.waiting_server = true
is_recoverable JobState.paused = true
is_recoverable JobState.rate_limited = true
is_recoverable _ = false

unfoldable pub recoverable : Database → List ℕ
unfolding is_recoverable
recoverable db =
    map (λ row. row.id) (sort_by (λ row. row.id) (select (λ row. is_recoverable row.state) db.jobs))
