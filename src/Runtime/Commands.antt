-- ===== src/Runtime/Commands.antt =====
-- The commands of src/tms/runtime/command_handlers.py that start, resume, pause and stop a
-- migration, with `new_executor` of src/tms/bootstrap.py. A command is refused with the text of its
-- exception, or starts an executor on the network thread. Texts are ASCII.
pub mod Launch
pub mod Exclusion
pub mod Stuck
pub mod Forgotten
use telegramv.Prelude.{
  ℕ, ◌+◌, ◌-◌, Bool, true, false, not, ◌&&◌, ◌||◌, List, [], ◌∷◌, Option, none, some, String, Text,
  codes, lower, text_eq, ◌==◌, ltb, if◌then◌else◌, find, select, is_some,
}
use telegramv.Core.{JobState, JobType}
use telegramv.Storage.{Database, JobRow, Json, JsonValue, json_get}
use telegramv.Jobs
use telegramv.Jobs.{account_waiting_until, get_checkpoint}
use telegramv.Accounts
use telegramv.Groups
use telegramv.Migration.Scheduler
use telegramv.Migration.Scheduler.{Scheduler, apply_server_wait}
use telegramv.Migration.Machine.{Action}

pub record Executor : Type 0 where
  pub job_id : ℕ
  pub account_id : ℕ
  pub action : Action
  pub scheduler : Scheduler

-- `_executors` in its context; the wall clock is ahead of the monotonic one by `utc_base`.
pub record Session : Type 0 where
  pub db : Database
  pub executors : List Executor
  pub now : ℕ
  pub utc_base : ℕ

abbrev pub utc : Session → ℕ
utc s = s.utc_base + s.now

pub data Answer (A : Type 0) : Type 0 where
  accepted : A → Answer A
  refused : String → Answer A

abbrev pub and_then : {A B : Type 0} → Answer A → (A → Answer B) → Answer B
and_then (accepted a) f = f a
and_then (refused error) f = refused error

-- `if test: raise error`
abbrev pub refuse_if : {A : Type 0} → Bool → String → Answer A → Answer A
refuse_if test error rest = if test then refused error else rest

abbrev pub require : {A B : Type 0} → Option A → String → (A → Answer B) → Answer B
require none error f = refused error
require (some a) error f = f a

-- `_require_enabled_account`
unfoldable pub require_enabled_account : {A : Type 0} → ℕ → Database → Answer A → Answer A
require_enabled_account account_id db rest =
    require (Accounts.get account_id db) "Account not found"
      (λ account. refuse_if (not account.enabled) "Selected account is disabled" rest)

unfoldable pub remaining_wait : Option ℕ → ℕ → ℕ
remaining_wait none now = 0
remaining_wait (some until) now = until - now

unfoldable pub apply_account_server_wait : Scheduler → ℕ → Session → Scheduler
unfolding remaining_wait
apply_account_server_wait scheduler account_id s =
    let remaining = remaining_wait (account_waiting_until account_id s.db) (utc s) in
    if ltb 0 remaining then apply_server_wait scheduler s.now remaining else scheduler

is_text : String → Text → Bool
is_text word text = text_eq (lower (codes word)) (lower text)

-- The action of a checkpoint; `none` is the ValueError of the executor.
unfoldable pub action_of : Option JsonValue → Option Action
unfolding is_text
action_of none = some Action.invite
action_of (some (JsonValue.text name)) =
    if is_text "INVITE" (codes name)
    then some Action.invite
    else if is_text "REMOVE" (codes name)
    then some Action.remove
    else none
action_of (some _) = none

-- `new_executor` of the bootstrap
unfoldable pub new_executor : ℕ → ℕ → ℕ → Session → Answer Executor
unfolding action_of
new_executor job_id account_id interval s =
    require (Scheduler.init interval) "Invite interval must be between 3 and 10 seconds"
      (λ scheduler.
        require (action_of (json_get "action" (get_checkpoint job_id s.db)))
          "Action must be INVITE or REMOVE"
          (λ action. accepted (record {
            job_id = job_id;
            account_id = account_id;
            action = action;
            scheduler = scheduler;
          })))

abbrev pub is_running : ℕ → List Executor → Bool
is_running job_id executors = is_some (find (λ e. e.job_id == job_id) executors)

-- The executor is given the account's wait, and its run is submitted.
unfoldable pub launch : ℕ → ℕ → ℕ → Session → Answer Session
unfolding new_executor apply_account_server_wait
launch job_id account_id interval s = and_then (new_executor job_id account_id interval s) (λ e.
    accepted (record s {
      executors =
          record e { scheduler = apply_account_server_wait e.scheduler account_id s } ∷ s.executors;
    }))

unfoldable pub is_migration : JobRow → Bool
is_migration row = elim row.job_type [ JobType.migration ↦ true | _ ↦ false ]

unfoldable pub is_ready : JobRow → Bool
is_ready row = elim row.state [ JobState.ready ↦ true | _ ↦ false ]

unfoldable pub is_resumable : JobRow → Bool
is_resumable row = elim row.state [
  | JobState.paused ↦ true
  | JobState.waiting_server ↦ true
  | _ ↦ false
]

abbrev no_job : String
no_job = "Migration job not found"

-- What `start_migration` asks of the job's row.
start_row : ℕ → ℕ → ℕ → Session → JobRow → Answer Session
unfolding launch is_migration is_ready
start_row job_id account_id interval s row = refuse_if (not (is_migration row)) no_job (
    refuse_if (not (is_ready row)) "Only READY migration jobs can be started" (
      require row.account_id "Selected account does not match the migration plan" (λ owner.
        refuse_if (not (owner == account_id)) "Selected account does not match the migration plan" (
          require row.target_group_id "Migration job is missing target metadata" (λ group_id.
            require (Groups.get group_id (some account_id) s.db)
              "Target group metadata is unavailable"
              (λ target. launch job_id account_id interval s))))))

unfoldable pub start_migration : ℕ → ℕ → ℕ → Session → Answer Session
unfolding start_row require_enabled_account
start_migration job_id account_id interval s =
    refuse_if (is_running job_id s.executors) "Migration job is already running" (
      require_enabled_account account_id s.db
        (require (Jobs.get job_id s.db) no_job (start_row job_id account_id interval s)))

-- What `resume_migration` asks of the job's row.
resume_row : ℕ → ℕ → Session → JobRow → Answer Session
unfolding launch is_migration is_resumable require_enabled_account
resume_row job_id interval s row = refuse_if (not (is_migration row)) no_job (
    refuse_if (not (is_resumable row)) "Only PAUSED/WAITING_SERVER migration jobs can be resumed" (
      require row.account_id "Migration job is missing account/target metadata" (λ account_id.
        require row.target_group_id "Migration job is missing account/target metadata" (λ group_id.
          require_enabled_account account_id s.db (
            require (Groups.get group_id (some account_id) s.db)
              "Target group metadata is unavailable"
              (λ target. launch job_id account_id interval s))))))

unfoldable pub resume_migration : ℕ → ℕ → Session → Answer Session
unfolding resume_row
resume_migration job_id interval s =
    refuse_if (is_running job_id s.executors) "Migration job is already running"
      (require (Jobs.get job_id s.db) no_job (resume_row job_id interval s))

-- `pause_migration` and `stop_migration` up to the request that they submit to the executor.
unfoldable pub running_executor : ℕ → Session → Answer Executor
running_executor job_id s =
    require (find (λ e. e.job_id == job_id) s.executors) "Migration job is not currently running"
      (λ e. accepted e)

-- `on_finished`
unfoldable pub finished : ℕ → Session → Session
finished job_id s = record s { executors = select (λ e. not (e.job_id == job_id)) s.executors }
