-- ===== src/Tests/App.antt =====
-- The context of the application with a database, its services and its commands.
use telegramv.Runtime.ResourceGovernor.Users.{Run}
use telegramv.Runtime.App.Deferral.{exports_deferred}
use telegramv.Runtime.App.Data.{export_dataset, export_job_log, export_job_results}
use telegramv.Prelude.{
  true, false, List, [], ◌∷◌, none, some, String, ◌≡◌, refl, str_eq, strip_string,
}
use telegramv.Prelude.Maps.{lookup}
use telegramv.Core.{DomainEvent, Result, AccountState, ConnectionState, TargetCoverage}
use telegramv.Storage.{Database, AccountRow}
use telegramv.Accounts as AccountRepository
use telegramv.Groups.{GroupContext}
use telegramv.Members.{default_spec}
use telegramv.Migration.Planner.{PrecheckResult}
use telegramv.Telegram.AuthService.{Client, User, AuthIdentity, connect_existing, identity_of}
use telegramv.Telegram.AuthService.Connection.{connect_existing-row}
use telegramv.Runtime.Commands.{Answer}
use telegramv.Runtime.StateStore
use telegramv.Runtime.StateStore.{
  pop-set_phone_code_hash, pop_phone_code_hash, set_phone_code_hash, get_phone_code_hash,
}
use telegramv.Runtime.ResourceGovernor
use telegramv.Runtime.ResourceGovernor.{ResourceGovernor, enable_performance_mode}
use telegramv.Runtime.EventAggregator.{push_all, keep_last}
use telegramv.Runtime.EventAggregator
use telegramv.Runtime.EventAggregator.Coalesce.{drain_exact, last_progress}
use telegramv.Runtime.App.{App, Task, Credentials, submit}
use telegramv.Runtime.App.Accounts.{sign_in, code_sent, signed_in}
use telegramv.Runtime.App.SignIn.{sign_in_once}
use telegramv.Runtime.App.Sources.{select_target}
use telegramv.Runtime.App.Targets.{precheck_done}
use telegramv.Runtime.App.Planning.{plan_action, is_blocked}
use telegramv.Runtime.App.Planning.Stale.{stale_precheck}
use telegramv.Tests.Fixtures.{planned, account}

abbrev no_credentials : Credentials
no_credentials = record { api_id = 1; api_hash = "h" }

abbrev pub app : Database → App
app db = record {
  session = record { db = db; executors = []; now = 500; utc_base = 1000000 };
  state = StateStore.initial;
  governor = record { max_reads = 3; performance_users = 0 };
  settings = no_credentials;
  credentials = no_credentials;
  clients = [];
  events = [];
  tasks = [];
}

abbrev event : String → DomainEvent String
event name = record { name = name; payload = [] }

abbrev progress : String → DomainEvent String
progress job = record { name = "MemberScanProgress"; payload = ("job_id", job) ∷ [] }

abbrev pushed : List (DomainEvent String)
pushed = event "A" ∷ progress "1" ∷ event "B" ∷ progress "1" ∷ []

drain_exact_example :
    ((push_all (λ s. s) pushed (EventAggregator.init 1)).events ≡ event "B" ∷ [])
    × ((key : String)
        → lookup str_eq key (push_all (λ s. s) pushed (EventAggregator.init 1)).latest_progress
          ≡ last_progress (λ s. s) key pushed none)
unfolding keep_last EventAggregator.is_progress
drain_exact_example = drain_exact (λ s. s) 1 pushed

abbrev me : User
me = record { id = some 77; username = none; first_name = some "Ann"; last_name = none }

abbrev client : Client
client = record {
  get = Result.returned tt;
  get_again = Result.returned tt;
  is_user_authorized = Result.returned true;
  send_code_request = Result.returned "x";
  sign_in = Result.returned tt;
  sign_in_password = λ _. Result.returned tt;
  get_me = Result.returned (some me);
}

abbrev connected : AccountRow
connected = record account {
  telegram_user_id = some 77;
  display_name = some "Ann";
  status = AccountState.ready;
  connection_state = ConnectionState.connecting;
}

connect_existing-row_example :
    AccountRepository.get 1 (connect_existing 1 client planned).0 ≡ some connected
unfolding AccountRepository.get identity_of strip_string
connect_existing-row_example =
    connect_existing-row 1 client me account planned refl refl refl refl refl

abbrev identity : AuthIdentity
identity = record { telegram_user_id = some 77; username = none; display_name = none }

sign_in_once_example :
    (sign_in 1 "12345" none (code_sent 1 (Result.returned "x") (app planned))
      ≡ Answer.accepted (
          submit
            (Task.sign_in 1 "+1" "12345" "x" none)
            (code_sent 1 (Result.returned "x") (app planned))))
    × (sign_in 1 "12345" none (signed_in 1 (Result.returned identity) (app planned))
        ≡ Answer.refused "Request OTP before signing in")
unfolding AccountRepository.get
sign_in_once_example = sign_in_once 1 "x" "12345" none identity account (app planned) refl refl refl

abbrev busy : App
busy = record (app planned) { governor = enable_performance_mode (ResourceGovernor.init 3) }

exports_deferred_example :
    ((export_dataset 1 "a.csv" none busy).tasks ≡ [])
    × ((export_job_log 1 "a.csv" busy).tasks ≡ [])
    × ((export_job_results 1 "a.csv" busy).tasks ≡ [])
exports_deferred_example = exports_deferred busy 1 1 "a.csv" none (Run.entered Run.started)

abbrev target : GroupContext
target = record {
  telegram_id = 900;
  access_hash = none;
  title = "Target";
  username = none;
  group_type = "Channel";
  is_member = true;
  is_admin = false;
  can_read = true;
  can_invite = false;
  can_send = true;
  local_group_id = some 1;
}

abbrev found : PrecheckResult
found = record { target_ids = 100 ∷ []; coverage = TargetCoverage.complete }

abbrev checked : App
checked = precheck_done 1 found (select_target 1 target (app planned))

stale_precheck_example :
    (plan_action 1 1 none "INVITE" checked
      ≡ Answer.accepted (submit (Task.plan 1 1 1 found default_spec "INVITE") checked))
    × (plan_action 1 1 none "REMOVE" checked
        ≡ Answer.accepted (submit (Task.plan 1 1 1 found default_spec "REMOVE") checked))
unfolding is_blocked
stale_precheck_example = stale_precheck 1 1 1 1 target found (app planned) refl refl
