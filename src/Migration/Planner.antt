-- ===== src/Migration/Planner.antt =====
-- src/tms/migration/planner.py and models.py. A set is a list.
pub mod Selection
pub mod Partition
use telegramv.Prelude.{
  ℤ, ℕ, zero, suc, ◌+◌, Bool, true, false, not, ◌&&◌, ◌||◌, List, [], ◌∷◌, ◌++◌, map, Option, none,
  some, String, Text, codes, lower, text_eq, text_in, strip, split, ◌==◌, if◌then◌else◌, select,
  find, sort_by, is_some, or_else, contains, length,
}
use telegramv.Core.{TargetCoverage, TargetMemberState, JobType, JobState}
use telegramv.Storage.{
  Database, MemberRow, DatasetMemberRow, ProvenanceRow, PeerRow, Json, JsonValue,
}
use telegramv.Members.{FilterSpec, has_text, is_nonempty}
use telegramv.Jobs
use telegramv.Jobs.{Job}
use telegramv.Jobs.Items.{add_items, access_hash, processed_user_ids_for_target}

-- migration/models.py
pub record PrecheckResult : Type 0 where
  pub target_ids : List ℕ
  pub coverage : TargetCoverage

pub record MigrationPlanSummary : Type 0 where
  pub total_source : ℕ
  pub filtered : ℕ
  pub already_target : ℕ
  pub invalid : ℕ
  pub ready : ℕ

-- A row of the query of `_rows`.
pub record PlanRow : Type 0 where
  pub id : ℕ
  pub telegram_user_id : Option ℕ
  pub username : Option Text
  pub bot : Bool
  pub deleted : Bool
  pub activity_status : Option Text
  pub access_hash : Option ℤ
  pub source_labels : Option Text

-- GROUP_CONCAT with char(31), which is NULL over no row.
concat_labels : List ProvenanceRow → Option Text
concat_labels [] = none
concat_labels (row ∷ rows) =
    let label = lower (or_else row.source_label []) in
    some (elim (concat_labels rows) [ none ↦ label | some text ↦ label ++ 31 ∷ text ])

labels_of : ℕ → ℕ → List ProvenanceRow → Option Text
unfolding concat_labels
labels_of dataset_id member_id rows =
    concat_labels (select (λ row. row.dataset_id == dataset_id && row.member_id == member_id) rows)

plan_row : ℕ → ℕ → Database → MemberRow → PlanRow
unfolding labels_of
plan_row account_id dataset_id db member = record {
  id = member.id;
  telegram_user_id = member.telegram_user_id;
  username = member.username;
  bot = member.bot;
  deleted = member.deleted;
  activity_status = member.activity_status;
  access_hash = access_hash account_id member.telegram_user_id db.peer_cache;
  source_labels = labels_of dataset_id member.id db.provenance;
}

join_rows : ℕ → ℕ → Database → List DatasetMemberRow → List PlanRow
unfolding plan_row
join_rows account_id dataset_id db [] = []
join_rows account_id dataset_id db (row ∷ rows) =
    let rest = join_rows account_id dataset_id db rows in
    elim (find (λ member. member.id == row.member_id) db.members) [
      | none ↦ rest
      | some member ↦ plan_row account_id dataset_id db member ∷ rest
    ]

-- `_rows`
unfoldable pub plan_rows : ℕ → ℕ → Database → List PlanRow
unfolding join_rows
plan_rows account_id dataset_id db = join_rows account_id dataset_id db (
    sort_by (λ row. row.member_id)
      (select (λ row. row.dataset_id == dataset_id) db.dataset_members))

-- The labels that are not empty.
present_labels : Option Text → List Text
present_labels text = select is_nonempty (split 31 (or_else text []))

meets : List Text → List Text → Bool
meets [] ys = false
meets (x ∷ xs) ys = text_in ys x || meets xs ys

-- `_valid` behind its test of the identity
unfoldable pub passes : PlanRow → FilterSpec → Bool
unfolding present_labels meets
passes row spec =
    not (spec.exclude_bot && row.bot)
    && not (spec.exclude_deleted && row.deleted)
    && not (spec.username_required && not (has_text row.username))
    && not
        (is_nonempty spec.activity && not (text_in spec.activity (or_else row.activity_status [])))
    && not (
        is_nonempty spec.source
        && not (meets (map (λ v. lower (strip v)) spec.source) (present_labels row.source_labels)))

unfoldable pub row_is_valid : PlanRow → FilterSpec → Bool
row_is_valid row spec = is_some row.telegram_user_id && is_some row.access_hash && passes row spec

-- The variables of the loop of a plan.
pub record Tally : Type 0 where
  pub seen : List ℕ
  pub invalid : ℕ
  pub filtered : ℕ
  pub already : ℕ
  pub items : List (ℕ × TargetMemberState)

abbrev pub start : Tally
start = record { seen = []; invalid = 0; filtered = 0; already = 0; items = [] }

-- `uid`, where neither it nor the access hash is None.
unfoldable pub identity : PlanRow → Option ℕ
identity row = if is_some row.access_hash then row.telegram_user_id else none

unfoldable pub state_for : TargetCoverage → TargetMemberState
state_for TargetCoverage.complete = TargetMemberState.known_absent
state_for _ = TargetMemberState.unknown_target_state

-- What an invitation plan is made from.
pub record PlanInput : Type 0 where
  pub precheck : PrecheckResult
  pub spec : FilterSpec
  pub processed : List ℕ

-- The exclusions of `create_plan` for a row with an identity.
unfoldable pub excluded : PlanInput → PlanRow → ℕ → Bool
excluded input row uid =
    not (row_is_valid row input.spec)
    || contains input.processed uid
    || contains input.spec.exclude_processed uid
    || contains input.spec.exclude_target uid

abbrev pub skip_filtered : Tally → Tally
skip_filtered t = record t { filtered = t.filtered + 1 }

invite_identified : PlanInput → Tally → PlanRow → ℕ → Tally
unfolding excluded state_for
invite_identified input t row uid =
    if contains t.seen uid || excluded input row uid
    then skip_filtered t
    else if contains input.precheck.target_ids uid
    then record t { seen = uid ∷ t.seen; already = t.already + 1 }
    else record t {
      seen = uid ∷ t.seen;
      items = t.items ++ (row.id, state_for input.precheck.coverage) ∷ [];
    }

-- One row of the loop of `create_plan`
unfoldable pub invite_row : PlanInput → Tally → PlanRow → Tally
unfolding invite_identified identity
invite_row input t row = elim (identity row) [
  | none ↦ record t { invalid = t.invalid + 1 }
  | some uid ↦ invite_identified input t row uid
]

unfoldable pub invite_rows : PlanInput → Tally → List PlanRow → Tally
unfolding invite_row
invite_rows input t [] = t
invite_rows input t (row ∷ rows) = invite_rows input (invite_row input t row) rows

remove_identified : PlanInput → Tally → PlanRow → ℕ → Tally
remove_identified input t row uid =
    if contains t.seen uid || not (row_is_valid row input.spec)
    then skip_filtered t
    else if contains input.precheck.target_ids uid
    then record t {
      seen = uid ∷ t.seen;
      items = t.items ++ (row.id, TargetMemberState.known_absent) ∷ [];
    }
    else record t { seen = uid ∷ t.seen; already = t.already + 1 }

-- One row of the loop of `create_remove_plan`; `already` is its `not_in_target`.
unfoldable pub remove_row : PlanInput → Tally → PlanRow → Tally
unfolding remove_identified identity
remove_row input t row = elim (identity row) [
  | none ↦ record t { invalid = t.invalid + 1 }
  | some uid ↦ remove_identified input t row uid
]

unfoldable pub remove_rows : PlanInput → Tally → List PlanRow → Tally
unfolding remove_row
remove_rows input t [] = t
remove_rows input t (row ∷ rows) = remove_rows input (remove_row input t row) rows

unfoldable pub summary_of : List PlanRow → Tally → MigrationPlanSummary
summary_of rows t = record {
  total_source = length rows;
  filtered = t.filtered;
  already_target = t.already;
  invalid = t.invalid;
  ready = length t.items;
}

-- `_persist`, for the plan's account, dataset and group
unfoldable pub persist : ℕ → ℕ → ℕ → List (ℕ × TargetMemberState) → String → Database → Database × ℕ
persist account_id source_dataset_id target_group_id ready_items action db =
    let job : Job = record {
      job_type = JobType.migration;
      state = JobState.ready;
      account_id = some account_id;
      source_dataset_id = some source_dataset_id;
      target_group_id = some target_group_id;
      total = length ready_items;
    } in
    let (db', job_id) = Jobs.create job db in
    (
      Jobs.set_checkpoint job_id (("action", JsonValue.text action) ∷ [])
          (add_items job_id ready_items db'),
      job_id,
    )

-- A plan: the database with the new job, the job's id and the summary.
pub record Plan : Type 0 where
  pub db : Database
  pub job_id : ℕ
  pub summary : MigrationPlanSummary

-- The loop of `create_plan` over its rows
unfoldable pub invite_tally : ℕ → ℕ → ℕ → PrecheckResult → FilterSpec → Database → Tally
unfolding invite_rows
invite_tally account_id source_dataset_id target_group_id precheck spec db =
    invite_rows
      (record {
        precheck = precheck;
        spec = spec;
        processed = processed_user_ids_for_target target_group_id db;
      })
      start (plan_rows account_id source_dataset_id db)

unfoldable pub create_plan : ℕ → ℕ → ℕ → PrecheckResult → FilterSpec → Database → Plan
unfolding invite_tally summary_of persist
create_plan account_id source_dataset_id target_group_id precheck spec db =
    let t = invite_tally account_id source_dataset_id target_group_id precheck spec db in
    let (db', job_id) = persist account_id source_dataset_id target_group_id t.items "INVITE" db in
    record {
      db = db';
      job_id = job_id;
      summary = summary_of (plan_rows account_id source_dataset_id db) t;
    }

-- The loop of `create_remove_plan` over its rows
unfoldable pub remove_tally : ℕ → ℕ → PrecheckResult → FilterSpec → Database → Tally
unfolding remove_rows
remove_tally account_id source_dataset_id precheck spec db =
    remove_rows (record { precheck = precheck; spec = spec; processed = [] }) start
      (plan_rows account_id source_dataset_id db)

is_unavailable : TargetCoverage → Bool
is_unavailable TargetCoverage.unavailable = true
is_unavailable _ = false

-- `none` is the RuntimeError.
unfoldable pub create_remove_plan : ℕ → ℕ → ℕ → PrecheckResult → FilterSpec → Database → Option Plan
unfolding remove_tally summary_of persist is_unavailable
create_remove_plan account_id source_dataset_id target_group_id precheck spec db =
    let t = remove_tally account_id source_dataset_id precheck spec db in
    let (db', job_id) = persist account_id source_dataset_id target_group_id t.items "REMOVE" db in
    if is_unavailable precheck.coverage
    then none
    else some (record {
      db = db';
      job_id = job_id;
      summary = summary_of (plan_rows account_id source_dataset_id db) t;
    })
