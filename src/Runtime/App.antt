-- ===== src/Runtime/App.antt =====
-- src/tms/runtime/command_handlers.py: what its commands read and change of the application's
-- context, and how they hand work to the worker and network threads. A command is refused with the
-- text of its exception, or accepted; a task that it submits ends by itself, with what the command
-- told to do then. A negative API id is refused as 0 is.
pub mod Accounts
pub mod Sources
pub mod Scans
pub mod Data
pub mod Targets
pub mod Planning
pub mod Jobs
pub mod Deferral
pub mod SignIn
use telegramv.Prelude.{ℕ, ℤ, Bool, List, [], ◌∷◌, ◌++◌, Option, none, some, String, if◌then◌else◌}
use telegramv.Core.{DomainEvent, Failure, Result}
use telegramv.Storage.{Database, AccountRow}
use telegramv.Members.{FilterSpec}
use telegramv.Groups.{GroupContext}
use telegramv.Migration.Planner.{PrecheckResult, MigrationPlanSummary}
use telegramv.Telegram.AuthService.{AuthIdentity}
use telegramv.Runtime.Commands.{Session, Answer, require, refuse_if}
use telegramv.Accounts as AccountRepository
use telegramv.Runtime.ResourceGovernor.{ResourceGovernor}
use telegramv.Runtime.StateStore.{StateSnapshot, Change, update}

-- A value in the payload of an event.
pub data Value : Type 0 where
  number : ℕ → Value
  words : String → Value
  flag : Bool → Value
  group : GroupContext → Value
  groups : List GroupContext → Value
  identity : Option AuthIdentity → Value
  summary : MigrationPlanSummary → Value

-- participant_scanner.ScanCheckpoint, as far as a resumption sets it
pub record ScanStart : Type 0 where
  pub offset : ℕ
  pub accepted : ℕ
  pub invalid : ℕ

-- What is handed to a worker or to the network thread.
pub data Task : Type 0 where
  apply_credentials save_settings : ℕ → String → Task
  add_account : String → Task
  enable_account : ℕ → Bool → Task
  disconnect_account delete_account connect_account : ℕ → Task
  send_code : ℕ → String → Task
  sign_in : ℕ → String → String → String → Option String → Task
  resolve_source resolve_target join_group leave_group : ℕ → String → Task
  joined_groups cancel_scan : ℕ → Task
  prepare_scan : ℕ → GroupContext → String → Task
  scan : ℕ → ℕ → GroupContext → ℕ → ScanStart → Task
  import_dataset : String → String → Option ℕ → Task
  combine_dataset : String → ℕ → ℕ → String → Task
  export_dataset : ℕ → String → Option ℕ → Task
  prepare_precheck : ℕ → GroupContext → Task
  precheck : ℕ → ℕ → GroupContext → Task
  plan : ℕ → ℕ → ℕ → PrecheckResult → FilterSpec → String → Task
  export_job_log export_job_results : ℕ → String → Task

-- The API id and hash that the clients are made with, and those that the settings keep.
pub record Credentials : Type 0 where
  pub api_id : ℕ
  pub api_hash : String

pub record App : Type 0 where
  pub session : Session
  pub state : StateSnapshot
  pub governor : ResourceGovernor
  pub settings : Credentials
  pub credentials : Credentials
  pub clients : List ℕ
  -- in the order of their publication and submission
  pub events : List (DomainEvent Value)
  pub tasks : List Task

unfoldable pub with_db : Database → App → App
with_db db app = record app { session = record app.session { db = db } }

unfoldable pub publish : String → List (String × Value) → App → App
publish name payload app = record app {
  events = app.events ++ record { name = name; payload = payload } ∷ [];
}

unfoldable pub submit : Task → App → App
submit task app = record app { tasks = app.tasks ++ task ∷ [] }

-- `state.update(...)` with names that the state has
unfoldable pub update_state : List Change → App → App
update_state changes app = record app { state = (update changes app.state).0 }

-- `_publish_failure`
unfoldable pub publish_failure : String → Failure → App → App
unfolding publish
publish_failure command e app =
    publish "CommandFailed"
      (("command", Value.words command)
        ∷ ("error", Value.words e.text)
        ∷ ("type", Value.words e.type_name)
        ∷ [])
      app

-- `done` of `_submit_worker` and `_submit_network`
unfoldable pub done : {A : Type 0} → String → (A → App → App) → Result A → App → App
unfolding publish_failure
done command on_success (Result.returned a) app = on_success a app
done command on_success (Result.raised e) app = publish_failure command e app

-- A transaction on a worker thread: the writer's exception, where there is one, leaves the database
-- as it was.
unfoldable pub transact :
    {A : Type 0} → String → (A → App → App) → Option Failure → (Database → Database × A) → App → App
unfolding done with_db
transact command on_success (some fault) operation app =
    done command on_success (Result.raised fault) app
transact command on_success none operation app =
    let (db, a) = operation app.session.db in
    done command on_success (Result.returned a) (with_db db app)

-- `_require_enabled_account` for a command that uses the account
unfoldable pub enabled_account : {A : Type 0} → ℕ → App → (AccountRow → Answer A) → Answer A
enabled_account account_id app rest =
    require (AccountRepository.get account_id app.session.db) "Account not found" (λ account.
      if account.enabled then rest account else Answer.refused "Selected account is disabled")
