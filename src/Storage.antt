-- ===== src/Storage.antt =====
-- src/tms/storage/schema.sql and the migration in src/tms/storage/database.py: the rows of the
-- tables and the database that holds them. A JSON text
-- is the object that it encodes, and a timestamp is a number of milliseconds. Columns that the modelled
-- code does not read, such as created_at and updated_at, are left out.
use telegramv.Prelude.{
  ℕ, ℤ, Bool, List, [], ◌∷◌, Option, none, some, String, Text, str_eq, if◌then◌else◌,
}
use telegramv.Core.{
  JobType, JobState, MigrationItemState, TargetMemberState, InviteResultCode, AccountState,
  ConnectionState, OperationState,
}

-- A JSON object with its values.
pub data JsonValue : Type 0 where
  text : String → JsonValue
  number : ℤ → JsonValue
  flag : Bool → JsonValue

abbrev pub Json : Type 0
Json = List (String × JsonValue)

-- `d.get(key)`
unfoldable pub json_get : String → Json → Option JsonValue
json_get key [] = none
json_get key ((k, v) ∷ rest) = if str_eq k key then some v else json_get key rest

-- `{**d, key: value}`
unfoldable pub json_set : String → JsonValue → Json → Json
json_set key value [] = (key, value) ∷ []
json_set key value ((k, v) ∷ rest) =
    if str_eq k key then (k, value) ∷ rest else (k, v) ∷ json_set key value rest

pub record JobRow : Type 0 where
  pub id : ℕ
  pub job_type : JobType
  pub state : JobState
  pub account_id : Option ℕ
  pub source_dataset_id : Option ℕ
  pub target_group_id : Option ℕ
  pub total : ℕ
  pub processed : ℕ
  pub success : ℕ
  pub skipped : ℕ
  pub failed : ℕ
  pub waiting_until : Option ℕ
  pub checkpoint : Option Json
  pub started_at : Option ℕ
  pub finished_at : Option ℕ

pub record ItemRow : Type 0 where
  pub job_id : ℕ
  pub ordinal : ℕ
  pub member_id : ℕ
  pub target_state : TargetMemberState
  pub state : MigrationItemState
  pub attempt_count : ℕ
  pub last_error_code : Option InviteResultCode
  pub last_error_text : Option String
  pub next_retry_at : Option ℕ
  pub processed_at : Option ℕ

-- The message of a job event: a text, or the one that is formatted from a wait in seconds.
pub data Message : Type 0 where
  message_text : String → Message
  wait_message : ℕ → Message

pub record EventRow : Type 0 where
  pub job_id : ℕ
  pub level : String
  pub event_code : String
  pub member_id : Option ℕ
  pub message : Option Message

pub record AccountRow : Type 0 where
  pub id : ℕ
  pub phone : String
  pub session_path : String
  pub telegram_user_id : Option ℕ
  pub username : Option String
  pub display_name : Option String
  pub status : AccountState
  pub connection_state : ConnectionState
  pub operation_state : OperationState
  pub enabled : Bool
  pub last_error : Option String

pub record RestrictionRow : Type 0 where
  pub id : ℕ
  pub account_id : ℕ
  pub action_type : String
  pub restriction_type : String
  pub rpc_code : Option ℕ
  pub exception_name : Option String
  pub request_type : Option String
  pub cleared : Bool

pub record MemberRow : Type 0 where
  pub id : ℕ
  pub telegram_user_id : Option ℕ
  pub username : Option Text
  pub first_name : Option Text
  pub last_name : Option Text
  pub phone : Option Text
  pub bot : Bool
  pub deleted : Bool
  pub activity_status : Option Text
  pub last_seen : Option Text

pub record PeerRow : Type 0 where
  pub account_id : ℕ
  pub peer_id : ℕ
  pub peer_type : String
  pub access_hash : Option ℤ
  pub username : Option Text
  pub title : Option Text

pub record DatasetRow : Type 0 where
  pub id : ℕ
  pub name : String
  pub source_type : String
  pub source_reference : Option String
  pub status : String
  pub member_count : ℕ

pub record DatasetMemberRow : Type 0 where
  pub dataset_id : ℕ
  pub member_id : ℕ
  pub source_group_id : Option ℕ

pub record ProvenanceRow : Type 0 where
  pub dataset_id : ℕ
  pub member_id : ℕ
  pub source_dataset_id : Option ℕ
  pub source_group_id : Option ℕ
  pub source_label : Option Text

pub record GroupRow : Type 0 where
  pub id : ℕ
  pub telegram_peer_id : ℕ
  pub group_type : String
  pub username : Option String
  pub title : String

-- The tables, and the next value of each AUTOINCREMENT key.
pub record Database : Type 0 where
  pub jobs : List JobRow
  pub items : List ItemRow
  pub job_events : List EventRow
  pub accounts : List AccountRow
  pub restrictions : List RestrictionRow
  pub members : List MemberRow
  pub peer_cache : List PeerRow
  pub datasets : List DatasetRow
  pub dataset_members : List DatasetMemberRow
  pub provenance : List ProvenanceRow
  pub groups : List GroupRow
  pub next_job : ℕ
  pub next_account : ℕ
  pub next_member : ℕ
  pub next_dataset : ℕ
  pub next_restriction : ℕ
  pub next_group : ℕ

abbrev pub empty : Database
empty = record {
  jobs = [];
  items = [];
  job_events = [];
  accounts = [];
  restrictions = [];
  members = [];
  peer_cache = [];
  datasets = [];
  dataset_members = [];
  provenance = [];
  groups = [];
  next_job = 1;
  next_account = 1;
  next_member = 1;
  next_dataset = 1;
  next_restriction = 1;
  next_group = 1;
}
