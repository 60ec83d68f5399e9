-- ===== src/Core.antt =====
-- src/tms/core: the enumerations of enums.py, the constants of constants.py, the error of errors.py
-- and the event of events.py. Durations are whole milliseconds.
use telegramv.Prelude.{ℕ, List, Option, String}

-- core/enums.py
pub data ConnectionState : Type 0 where
  disconnected connecting auth_required ready error disabled : ConnectionState

pub data OperationState : Type 0 where
  idle preparing running waiting_server paused rate_limited recovering : OperationState

pub data AccountState : Type 0 where
  disconnected connecting auth_required ready error disabled busy waiting_server : AccountState

pub data JobState : Type 0 where
  ready preparing running waiting_server paused rate_limited : JobState
  completed completed_with_errors failed cancelled : JobState

pub data JobType : Type 0 where
  scan target_scan migration remove import_ export : JobType

pub data MigrationItemState : Type 0 where
  ready retry success skipped failed : MigrationItemState

pub data InviteResultCode : Type 0 where
  rate_limit rate_limit_indefinite privacy already_member not_eligible permission auth :
      InviteResultCode
  invalid_user network_transient server_transient unknown : InviteResultCode

pub data TargetCoverage : Type 0 where
  complete partial unavailable : TargetCoverage

pub data TargetMemberState : Type 0 where
  known_absent unknown_target_state : TargetMemberState

-- core/constants.py
abbrev pub min_invite_interval : ℕ
min_invite_interval = 3000

abbrev pub default_invite_interval : ℕ
default_invite_interval = 5000

abbrev pub max_invite_interval : ℕ
max_invite_interval = 10000

abbrev pub recovery_invite_interval : ℕ
recovery_invite_interval = 10000

abbrev pub candidate_prefetch_min : ℕ
candidate_prefetch_min = 100

abbrev pub candidate_prefetch_max : ℕ
candidate_prefetch_max = 500

abbrev pub migration_db_batch_size : ℕ
migration_db_batch_size = 20

abbrev pub migration_db_max_flush : ℕ
migration_db_max_flush = 1000

abbrev pub scan_db_batch_size : ℕ
scan_db_batch_size = 250

abbrev pub rpc_watchdog : ℕ
rpc_watchdog = 30000

-- core/errors.py
pub record DomainError : Type 0 where
  pub code : InviteResultCode
  pub text : String
  pub wait_seconds : Option ℕ

-- core/events.py, for a type of the values in a payload
pub record DomainEvent (V : Type 0) : Type 0 where
  pub name : String
  pub payload : List (String × V)

-- An exception as its class name and its text, and what a call comes to.
pub record Failure : Type 0 where
  pub type_name : String
  pub text : String

pub data Result (A : Type 0) : Type 0 where
  returned : A → Result A
  raised : Failure → Result A

abbrev pub failure : String → String → Failure
failure type_name text = record { type_name = type_name; text = text }
