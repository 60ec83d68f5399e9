-- ===== src/Tests/Fixtures.antt =====
-- A small database, two plans' inputs and environments of the executor.
use telegramv.Prelude.{ℕ, suc, ◌*◌, true, false, [], ◌∷◌, Option, none, some, pos}
use telegramv.Core.{
  AccountState, ConnectionState, OperationState, JobState, JobType, MigrationItemState,
  TargetMemberState,
}
use telegramv.Storage.{
  Database, empty, GroupRow, MemberRow, PeerRow, DatasetMemberRow, AccountRow, JobRow, ItemRow,
  JsonValue,
}
use telegramv.Telegram.ErrorMapper.{RpcException}
use telegramv.Migration.Scheduler.{Scheduler}
use telegramv.Runtime.Commands.{Session}
use telegramv.Migration.Machine.{Environment, World}

abbrev pub scheduler : Scheduler
scheduler = record {
  interval = 5000;
  target_interval = 5000;
  last_attempt = none;
  server_wait_until = 0;
  recovery_steps = [];
}

abbrev pub flood : RpcException
flood = record {
  type_name = "FloodWaitError";
  text = "A wait of 7 seconds is required";
  seconds = some 7;
  value = none;
  is_os_error = false;
}

abbrev member : ℕ → MemberRow
member id = record {
  id = id;
  telegram_user_id = some (100 * id);
  username = none;
  first_name = none;
  last_name = none;
  phone = none;
  bot = false;
  deleted = false;
  activity_status = none;
  last_seen = none;
}

abbrev pub peer : ℕ → PeerRow
peer id = record {
  account_id = 1;
  peer_id = id;
  peer_type = "user";
  access_hash = some (pos 9);
  username = none;
  title = none;
}

abbrev in_dataset : ℕ → DatasetMemberRow
in_dataset id = record { dataset_id = 1; member_id = id; source_group_id = none }

-- A dataset of three members, of whom the third has no access hash.
abbrev pub source : Database
source = record empty {
  members = member 1 ∷ member 2 ∷ member 3 ∷ [];
  peer_cache = peer 100 ∷ peer 200 ∷ [];
  dataset_members = in_dataset 1 ∷ in_dataset 2 ∷ in_dataset 3 ∷ [];
}

abbrev pub account : AccountRow
account = record {
  id = 1;
  phone = "+1";
  session_path = "a.session";
  telegram_user_id = none;
  username = none;
  display_name = none;
  status = AccountState.ready;
  connection_state = ConnectionState.ready;
  operation_state = OperationState.idle;
  enabled = true;
  last_error = none;
}

abbrev pub migration_job : JobState → JobRow
migration_job state = record {
  id = 1;
  job_type = JobType.migration;
  state = state;
  account_id = some 1;
  source_dataset_id = some 1;
  target_group_id = some 1;
  total = 2;
  processed = 0;
  success = 0;
  skipped = 0;
  failed = 0;
  waiting_until = none;
  checkpoint = some (("action", JsonValue.text "REMOVE") ∷ []);
  started_at = none;
  finished_at = none;
}

abbrev target_group : GroupRow
target_group = record {
  id = 1;
  telegram_peer_id = 900;
  group_type = "Channel";
  username = none;
  title = "Target";
}

abbrev item : ℕ → ItemRow
item ordinal = record {
  job_id = 1;
  ordinal = ordinal;
  member_id = suc ordinal;
  target_state = TargetMemberState.known_absent;
  state = MigrationItemState.ready;
  attempt_count = 0;
  last_error_code = none;
  last_error_text = none;
  next_retry_at = none;
  processed_at = none;
}

abbrev pub planned : Database
planned = record source {
  accounts = account ∷ [];
  jobs = migration_job JobState.ready ∷ [];
  items = item 0 ∷ item 1 ∷ [];
  groups = target_group ∷ [];
}

-- The gateway accepts every RPC.
abbrev pub calm : Environment
calm = record {
  utc_base = 1000000;
  elapse = λ _. 0;
  requests = λ _. [];
  answer = λ _. none;
  latency = λ _. 40;
  write_error = λ _. none;
}

abbrev pub world : World
world = record {
  db = planned;
  now = 500;
  waits = 0;
  scheduler = scheduler;
  running_job = none;
  stop_event = false;
  pause_event = false;
  result_buffer = [];
  last_flush = 0;
  flush_at = none;
  performance_users = 0;
  trace = [];
}

abbrev pub session : JobState → Option ℕ → Session
session state until = record {
  db = record planned { jobs = record (migration_job state) { waiting_until = until } ∷ [] };
  executors = [];
  now = 500;
  utc_base = 1000000;
}
