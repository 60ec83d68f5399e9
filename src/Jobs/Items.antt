-- ===== src/Jobs/Items.antt =====
-- src/tms/jobs/repository.py: the operations on migration items.
use telegramv.Prelude.{
  ℕ, ℤ, ◌+◌, Bool, true, false, ◌&&◌, ◌||◌, List, [], ◌∷◌, ◌++◌, Option, none, some, String, ◌==◌,
  ltb, if◌then◌else◌, select, find, update_where, count_where, sort_by, take, length, is_some,
}
use telegramv.Core.{MigrationItemState, TargetMemberState, InviteResultCode}
use telegramv.Storage.{JobRow, ItemRow, MemberRow, PeerRow, Database, Json}
use telegramv.Jobs.{ItemUpdate, sql_eq}

ready_item : ℕ → ℕ → ℕ → TargetMemberState → ItemRow
ready_item job_id ordinal member_id state = record {
  job_id = job_id;
  ordinal = ordinal;
  member_id = member_id;
  target_state = state;
  state = MigrationItemState.ready;
  attempt_count = 0;
  last_error_code = none;
  last_error_text = none;
  next_retry_at = none;
  processed_at = none;
}

abbrev pub has_key : ℕ → ℕ → ItemRow → Bool
has_key job_id ordinal row = row.job_id == job_id && row.ordinal == ordinal

-- The key of idx_migration_items_job_member_unique in src/tms/storage/database.py
abbrev of_member : ℕ → ℕ → ItemRow → Bool
of_member job_id member_id row = row.job_id == job_id && row.member_id == member_id

-- INSERT OR IGNORE: a row with the same primary key, or of the same member, is left as it is.
insert_item : ItemRow → List ItemRow → List ItemRow
insert_item item rows =
    if is_some (find (has_key item.job_id item.ordinal) rows)
      || is_some (find (of_member item.job_id item.member_id) rows)
    then rows
    else rows ++ item ∷ []

-- The rows for `enumerate(items)`, from ordinal `i` on.
insert_items : ℕ → ℕ → List (ℕ × TargetMemberState) → List ItemRow → List ItemRow
unfolding insert_item ready_item
insert_items job_id i [] rows = rows
insert_items job_id i ((member_id, state) ∷ items) rows =
    insert_items job_id (i + 1) items (insert_item (ready_item job_id i member_id state) rows)

unfoldable pub add_items : ℕ → List (ℕ × TargetMemberState) → Database → Database
unfolding insert_items
add_items job_id items db = record db {
  items = insert_items job_id 0 items db.items;
  jobs =
      update_where (λ row. row.id == job_id) (λ row. record row { total = length items }) db.jobs;
}

-- A row of the join of `pending_chunk`.
pub record PendingRow : Type 0 where
  pub item : ItemRow
  pub member : MemberRow
  pub account_access_hash : Option ℤ

-- The access hash of the account for a Telegram id, by the LEFT JOIN on `peer_cache`.
unfoldable pub access_hash : ℕ → Option ℕ → List PeerRow → Option ℤ
access_hash account_id none peers = none
access_hash account_id (some peer_id) peers =
    elim (find (λ peer. peer.account_id == account_id && peer.peer_id == peer_id) peers) [
      | none ↦ none
      | some peer ↦ peer.access_hash
    ]

-- JOIN members: an item with no member row gives no row.
join_members : ℕ → Database → List ItemRow → List PendingRow
unfolding access_hash
join_members account_id db [] = []
join_members account_id db (item ∷ items) =
    let rest = join_members account_id db items in
    elim (find (λ member. member.id == item.member_id) db.members) [
      | none ↦ rest
      | some member ↦
          record {
            item = item;
            member = member;
            account_access_hash = access_hash account_id member.telegram_user_id db.peer_cache;
          }
          ∷ rest
    ]

unfoldable pub is_pending : MigrationItemState → Bool
is_pending MigrationItemState.ready = true
is_pending MigrationItemState.retry = true
is_pending _ = false

-- `ordinal > last_ordinal`, where `none` is the -1 of a buffer that has loaded nothing.
abbrev pub is_after : Option ℕ → ℕ → Bool
is_after none ordinal = true
is_after (some last) ordinal = ltb last ordinal

unfoldable pub pending_chunk : ℕ → ℕ → Option ℕ → ℕ → Database → List PendingRow
unfolding join_members is_pending
pending_chunk job_id account_id last_ordinal limit db = take limit (
    sort_by (λ row. row.item.ordinal)
      (join_members account_id db (
        select
          (λ item.
            item.job_id == job_id && is_after last_ordinal item.ordinal && is_pending item.state)
          db.items)))

apply_update : ℕ → ItemUpdate → ItemRow → ItemRow
apply_update now update row = record row {
  state = update.state;
  attempt_count = update.attempts;
  last_error_code = update.error_code;
  last_error_text = update.error_text;
  processed_at = some now;
}

pub apply_updates : ℕ → ℕ → List ItemUpdate → List ItemRow → List ItemRow
unfolding apply_update
apply_updates job_id now [] rows = rows
apply_updates job_id now (update ∷ updates) rows =
    apply_updates job_id now updates
      (update_where (has_key job_id update.ordinal) (apply_update now update) rows)

is_success : MigrationItemState → Bool
is_success MigrationItemState.success = true
is_success _ = false

is_skipped : MigrationItemState → Bool
is_skipped MigrationItemState.skipped = true
is_skipped _ = false

is_failed : MigrationItemState → Bool
is_failed MigrationItemState.failed = true
is_failed _ = false

-- SUM(state=…) over the items of a job
unfoldable pub count_state : (MigrationItemState → Bool) → ℕ → List ItemRow → ℕ
count_state test job_id rows = count_where (λ row. row.job_id == job_id && test row.state) rows

-- `json.dumps(checkpoint) if checkpoint else None`, under COALESCE
unfoldable pub replace_checkpoint : Option Json → Option Json → Option Json
replace_checkpoint none old = old
replace_checkpoint (some []) old = old
replace_checkpoint (some (e ∷ entries)) old = some (e ∷ entries)

unfoldable pub set_counts : ℕ → List ItemRow → Option Json → JobRow → JobRow
unfolding count_state is_success is_skipped is_failed replace_checkpoint
set_counts job_id items checkpoint row =
    let success = count_state is_success job_id items in
    let skipped = count_state is_skipped job_id items in
    let failed = count_state is_failed job_id items in
    record row {
      processed = success + skipped + failed;
      success = success;
      skipped = skipped;
      failed = failed;
      checkpoint = replace_checkpoint checkpoint row.checkpoint;
    }

unfoldable pub update_items_batch : ℕ → List ItemUpdate → Option Json → ℕ → Database → Database
unfolding apply_updates set_counts
update_items_batch job_id updates checkpoint now db =
    let items = apply_updates job_id now updates db.items in
    record db {
      items = items;
      jobs = update_where (λ row. row.id == job_id) (set_counts job_id items checkpoint) db.jobs;
    }

-- `submit_mark_retry`
unfoldable pub mark_retry :
    ℕ → ℕ → ℕ → Option InviteResultCode → Option String → Option ℕ → Database → Database
mark_retry job_id ordinal attempts error_code error_text next_retry_at db = record db {
  items =
      update_where (has_key job_id ordinal)
        (λ row. record row {
          state = MigrationItemState.retry;
          attempt_count = attempts;
          last_error_code = error_code;
          last_error_text = error_text;
          next_retry_at = next_retry_at;
        })
        db.items;
}

-- The Telegram ids of the successful items of one job, NULL left out.
successes_of : ℕ → Database → List ItemRow → List ℕ
unfolding is_success
successes_of job_id db [] = []
successes_of job_id db (item ∷ items) =
    let rest = successes_of job_id db items in
    if item.job_id == job_id && is_success item.state
    then elim (find (λ member. member.id == item.member_id) db.members) [
      | none ↦ rest
      | some member ↦ elim member.telegram_user_id [ none ↦ rest | some uid ↦ uid ∷ rest ]
    ]
    else rest

processed_by : ℕ → Database → List JobRow → List ℕ
unfolding successes_of
processed_by target_group_id db [] = []
processed_by target_group_id db (job ∷ jobs) =
    let rest = processed_by target_group_id db jobs in
    if sql_eq job.target_group_id target_group_id
    then successes_of job.id db db.items ++ rest
    else rest

-- The set as a list; the duplicates that DISTINCT removes do not show under `in`.
unfoldable pub processed_user_ids_for_target : ℕ → Database → List ℕ
unfolding processed_by
processed_user_ids_for_target target_group_id db = processed_by target_group_id db db.jobs
