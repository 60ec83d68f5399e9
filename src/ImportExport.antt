-- ===== src/ImportExport.antt =====
-- src/tms/import_export/service.py. What a file holds is an argument: the rows that were read, or the
-- exception; so is what writing a file comes to. Python's `int` of a text is an argument too.
pub mod Stuck
use telegramv.Prelude.{
  ℕ, ℤ, ◌+◌, Bool, true, false, not, ◌&&◌, List, [], ◌∷◌, ◌++◌, map, Option, none, some, String,
  Text, codes, strip, lstrip, ◌==◌, if◌then◌else◌, is_some, find, select, sort_by, string_append,
  str_eq, ◌||◌,
}
use telegramv.Core.{
  Result, Failure, JobState, JobType, MigrationItemState, InviteResultCode, failure,
}
use telegramv.Storage.{Database, EventRow, ItemRow, MemberRow}
use telegramv.Members.{Member, is_nonempty}
use telegramv.Members.Repository.{Source, IngestSummary, ingest_batch}
use telegramv.Members.Repository.Paging.{iter_dataset_rows, concat}
use telegramv.Datasets
use telegramv.Jobs
use telegramv.Jobs.{Job, no_options}
use telegramv.Jobs.Items.{access_hash}

-- A row of an imported file, by its headers; a missing cell is the empty text.
pub record FileRow : Type 0 where
  pub user_id : Text
  pub telegram_user_id : Text
  pub username : Text
  pub access_hash : Text
  pub first_name : Text
  pub last_name : Text
  pub phone : Text

-- The path of a file with its stem and its name.
pub record File : Type 0 where
  pub path : String
  pub stem : String
  pub name : String

-- `text or None`
abbrev pub given : Text → Option Text
given text = if is_nonempty text then some text else none

abbrev running_job : JobType → Option ℕ → ℕ → Job
running_job job_type account_id dataset_id = record {
  job_type = job_type;
  state = JobState.running;
  account_id = account_id;
  source_dataset_id = some dataset_id;
  target_group_id = none;
  total = 0;
}

abbrev file_dataset : File → String → Datasets.Dataset
file_dataset file name = record {
  name = if str_eq name "" then file.stem else name;
  source_type = "FILE";
  source_reference = some file.path;
  status = "READY";
  member_count = 0;
}

-- `_int`, for Python's `int`
int_or_none : {A : Type 0} → (Text → Option A) → Text → Option A
int_or_none parse text = if is_nonempty text then parse (strip text) else none

module _ (int_id : Text → Option ℕ) (int_hash : Text → Option ℤ) where
  -- The member of a row; none for a row without an identity.
  unfoldable pub file_member : FileRow → Option Member
  unfolding int_or_none
  file_member row =
      let uid =
        int_or_none int_id
          (if is_nonempty row.user_id then row.user_id else row.telegram_user_id) in
      let username = given (lstrip (λ c. c == b'@') (strip row.username)) in
      if is_some uid || is_some username
      then some (record {
        telegram_user_id = uid;
        username = username;
        first_name = given row.first_name;
        last_name = given row.last_name;
        phone = given row.phone;
        bot = false;
        deleted = false;
        activity_status = none;
        last_seen = none;
        access_hash = int_or_none int_hash row.access_hash;
      })
      else none

  add_member : Option Member → List Member × ℕ → List Member × ℕ
  add_member none (members, invalid) = (members, invalid + 1)
  add_member (some member) (members, invalid) = (member ∷ members, invalid)

  -- The members of the rows, and how many rows have no identity.
  unfoldable pub file_members : List FileRow → List Member × ℕ
  unfolding file_member add_member
  file_members [] = ([], 0)
  file_members (row ∷ rows) = add_member (file_member row) (file_members rows)

  abbrev import_source : ℕ → Option ℕ → File → Source
  import_source dataset_id account_id file = record {
    dataset_id = dataset_id;
    source_group_id = none;
    account_id = account_id;
    source_label = some (codes file.name);
  }

  -- What follows the reading of the file.
  store_rows : ℕ → ℕ → Option ℕ → File → ℕ → List FileRow → Database → Database × Result (ℕ × ℕ)
  unfolding file_members
  store_rows dataset_id job_id account_id file now rows db =
      let (members, invalid) = file_members rows in
      elim (ingest_batch (import_source dataset_id account_id file) members db) [
        | none ↦ (db, Result.raised (failure "IntegrityError" "FOREIGN KEY constraint failed"))
        | some (db', summary) ↦ (
          Jobs.set_state job_id
              (if invalid + summary.invalid == 0
                then JobState.completed
                else JobState.completed_with_errors)
              no_options now db',
          Result.returned (dataset_id, job_id),
        )
      ]

  -- `import_dataset`: the ids of the dataset and of the job.
  unfoldable pub import_dataset :
      File → String → Option ℕ → ℕ → Result (List FileRow) → Database → Database × Result (ℕ × ℕ)
  unfolding store_rows
  import_dataset file name account_id now content db =
      let (db1, dataset_id) = Datasets.create (file_dataset file name) db in
      let (db2, job_id) = Jobs.create (running_job JobType.import_ account_id dataset_id) db1 in
      elim content [
        | Result.raised e ↦ (db2, Result.raised e)
        | Result.returned rows ↦ store_rows dataset_id job_id account_id file now rows db2
      ]

-- `row_values`: a member with the access hash that the account knows.
unfoldable pub row_values : Option ℕ → Database → Member → Member
row_values none db member = member
row_values (some account_id) db member = elim member.telegram_user_id [
  | none ↦ member
  | some uid ↦ record member { access_hash = access_hash account_id (some uid) db.peer_cache }
]

write_pages : Option ℕ → Database → Option (List (List Member)) → List Member
unfolding row_values
write_pages account_id db none = []
write_pages account_id db (some pages) = map (row_values account_id db) (concat pages)

-- The rows that an export writes below the headers.
unfoldable pub export_rows : ℕ → Option ℕ → Database → List Member
unfolding write_pages
export_rows dataset_id account_id db =
    write_pages account_id db (iter_dataset_rows dataset_id 2000 db)

-- `export_dataset`, for what writing the file comes to: the job and the rows in the file.
unfoldable pub export_dataset :
    ℕ → Option ℕ → ℕ → Result Unit → Database → Database × Result (ℕ × List Member)
unfolding export_rows
export_dataset dataset_id account_id now written db =
    let (db1, job_id) = Jobs.create (running_job JobType.export account_id dataset_id) db in
    elim written [
      | Result.raised e ↦ (db1, Result.raised e)
      | Result.returned u ↦ (
        Jobs.set_state job_id JobState.completed no_options now db1,
        Result.returned (job_id, export_rows dataset_id account_id db1),
      )
    ]

-- A row of the results of a job.
pub record ResultRow : Type 0 where
  pub ordinal : ℕ
  pub telegram_user_id : Option ℕ
  pub username : Option Text
  pub state : MigrationItemState
  pub attempt_count : ℕ
  pub error_code : Option InviteResultCode
  pub error_text : Option String

result_rows : List ItemRow → Database → List ResultRow
result_rows [] db = []
result_rows (item ∷ items) db =
    let rest = result_rows items db in
    elim (find (λ m. m.id == item.member_id) db.members) [
      | none ↦ rest
      | some member ↦
          record {
            ordinal = item.ordinal;
            telegram_user_id = member.telegram_user_id;
            username = member.username;
            state = item.state;
            attempt_count = item.attempt_count;
            error_code = item.last_error_code;
            error_text = item.last_error_text;
          }
          ∷ rest
    ]

unfoldable pub export_job_results : ℕ → Database → List ResultRow
unfolding result_rows
export_job_results job_id db =
    result_rows (sort_by (λ item. item.ordinal) (select (λ item. item.job_id == job_id) db.items))
      db

unfoldable pub export_job_log : ℕ → Database → List EventRow
export_job_log job_id db = select (λ event. event.job_id == job_id) db.job_events
