-- ===== src/Runtime/App/Scans.antt =====
-- The commands on scans of src/tms/runtime/command_handlers.py. What the scanner does is
-- Telegram.ParticipantScanner. The checkpoint of a scan holds the natural numbers that the scanner
-- writes; anything else in their place, which nothing writes, is refused.
use telegramv.Prelude.{
  ℕ, pos, [], ◌∷◌, Option, none, some, String, Bool, true, false, not, str_eq, strip_string, show,
  ◌==◌, if◌then◌else◌,
}
use telegramv.Core.{Result, Failure, JobState, JobType}
use telegramv.Storage.{Database, Json, JsonValue, json_get}
use telegramv.Groups
use telegramv.Groups.{GroupContext}
use telegramv.Datasets
use telegramv.Jobs as JobRepository
use telegramv.Jobs.{Job, get_checkpoint}
use telegramv.Runtime.Commands.{Answer, require, refuse_if}
use telegramv.Runtime.StateStore.{Change}
use telegramv.Runtime.App.{
  App, Task, Value, ScanStart, publish, submit, update_state, done, with_db, enabled_account,
}

abbrev pub same_account : Option ℕ → ℕ → Bool
same_account none account_id = false
same_account (some a) account_id = a == account_id

unfoldable pub scan_source : ℕ → String → App → Answer App
unfolding submit enabled_account
scan_source account_id dataset_name app = enabled_account account_id app (λ _.
    require app.state.source_group "Resolve/select a source group first" (λ group.
      require group.local_group_id "Resolve/select a source group first" (λ _.
        refuse_if (not (same_account app.state.source_account_id account_id))
          "Source group was resolved with a different account; resolve it again"
          (Answer.accepted (submit (Task.prepare_scan account_id group dataset_name) app)))))

abbrev scan_dataset : GroupContext → String → Datasets.Dataset
scan_dataset group dataset_name = record {
  name = if str_eq (strip_string dataset_name) "" then group.title else strip_string dataset_name;
  source_type = "TELEGRAM_GROUP";
  source_reference = some (show group.telegram_id);
  status = "READY";
  member_count = 0;
}

abbrev scan_job : ℕ → GroupContext → ℕ → Job
scan_job account_id group dataset_id = record {
  job_type = JobType.scan;
  state = JobState.ready;
  account_id = some account_id;
  source_dataset_id = some dataset_id;
  target_group_id = group.local_group_id;
  total = 0;
}

abbrev from_start : ScanStart
from_start = record { offset = 0; accepted = 0; invalid = 0 }

-- `prepare`, whose two transactions may fail.
unfoldable pub prepare_scan :
    ℕ
    → GroupContext
    → String
    → Option Failure
    → Option Failure
    → Database
    → Database × Result (ℕ × ℕ)
prepare_scan account_id group dataset_name (some e) second db = (db, Result.raised e)
prepare_scan account_id group dataset_name none second db =
    let (db', dataset_id) = Datasets.create (scan_dataset group dataset_name) db in
    elim second [
      | some e ↦ (db', Result.raised e)
      | none ↦
          let (db'', job_id) = JobRepository.create (scan_job account_id group dataset_id) db' in
          (db'', Result.returned (dataset_id, job_id))
    ]

-- `start`
unfoldable pub start_scan : ℕ → GroupContext → ℕ × ℕ → App → App
unfolding publish submit update_state
start_scan account_id group (dataset_id, job_id) app =
    submit (Task.scan job_id account_id group dataset_id from_start) (
      publish "MemberScanStarted"
        (("job_id", Value.number job_id) ∷ ("dataset_id", Value.number dataset_id) ∷ [])
        (update_state (Change.source_dataset_id (some dataset_id) ∷ []) app))

unfoldable pub scan_prepared :
    ℕ → GroupContext → String → Option Failure → Option Failure → App → App
unfolding done with_db prepare_scan start_scan
scan_prepared account_id group dataset_name first second app =
    let (db, result) = prepare_scan account_id group dataset_name first second app.session.db in
    done "source.scan.prepare" (start_scan account_id group) result (with_db db app)

unfoldable pub cancel_scan : ℕ → App → App
unfolding submit
cancel_scan job_id app = submit (Task.cancel_scan job_id) app

-- `int(checkpoint_data.get(key, 0) or 0)`
unfoldable pub checkpoint_number : String → Json → Option ℕ
checkpoint_number key checkpoint = elim (json_get key checkpoint) [
  | none ↦ some 0
  | some (JsonValue.number (pos n)) ↦ some n
  | some _ ↦ none
]

-- The ScanCheckpoint of a resumption.
unfoldable pub scan_start : Json → Option ScanStart
unfolding checkpoint_number
scan_start checkpoint = elim (checkpoint_number "offset" checkpoint) [
  | none ↦ none
  | some offset ↦ elim (checkpoint_number "accepted" checkpoint) [
    | none ↦ none
    | some accepted ↦ elim (checkpoint_number "invalid" checkpoint) [
      | none ↦ none
      | some invalid ↦ some (record { offset = offset; accepted = accepted; invalid = invalid })
    ]
  ]
]

unfoldable pub is_scan : JobType → Bool
is_scan JobType.scan = true
is_scan _ = false

unfoldable pub is_paused : JobState → Bool
is_paused JobState.paused = true
is_paused _ = false

abbrev no_metadata : String
no_metadata = "Scan job is missing account/dataset/group metadata"

unfoldable pub resume_scan : ℕ → App → Answer App
unfolding submit enabled_account scan_start is_scan is_paused
resume_scan job_id app =
    let db = app.session.db in
    require (JobRepository.get job_id db) "Scan job not found" (λ row.
      refuse_if (not (is_scan row.job_type)) "Scan job not found" (
        refuse_if (not (is_paused row.state)) "Only paused scan jobs can be resumed" (
          require row.account_id no_metadata (λ account_id.
            require row.source_dataset_id no_metadata (λ dataset_id.
              require row.target_group_id no_metadata (λ group_id.
                enabled_account account_id app (λ _.
                  require (Groups.get group_id (some account_id) db)
                    "Source group metadata is unavailable"
                    (λ group.
                      require (scan_start (get_checkpoint job_id db)) "invalid literal for int()"
                        (λ start.
                          Answer.accepted (
                            submit (Task.scan job_id account_id group dataset_id start)
                              app))))))))))
