-- ===== src/Members/Repository.antt =====
-- src/tms/members/repository.py. The foreign keys of the tables are enforced, and so are the unique
-- indexes of src/tms/storage/database.py, which take a NULL for a value of its own.
pub mod Provenance
pub mod Paging
use telegramv.Prelude.{
  ℕ, ℤ, ◌+◌, ◌-◌, min, max, Bool, true, false, not, ◌&&◌, ◌||◌, List, [], ◌∷◌, ◌++◌, map, Option,
  none, some, String, Text, lower, text_eq, strip, lstrip, ◌==◌, if◌then◌else◌, select, find,
  update_where, count_where, is_some, length,
}
use telegramv.Storage.{Database, MemberRow, DatasetMemberRow, ProvenanceRow, PeerRow, DatasetRow}
use telegramv.Members.{Member, has_text, is_nonempty}

-- `_clean_username`
unfoldable pub clean_username : Option Text → Option Text
clean_username none = none
clean_username (some value) =
    let cleaned = lstrip (λ c. c == 64) (strip value) in
    if is_nonempty value && is_nonempty cleaned then some cleaned else none

-- A row of the table with the values of a member, whose username is clean.
unfoldable pub write_row : ℕ → Option ℕ → Option Text → Member → MemberRow
write_row id telegram_user_id username member = record {
  id = id;
  telegram_user_id = telegram_user_id;
  username = username;
  first_name = member.first_name;
  last_name = member.last_name;
  phone = member.phone;
  bot = member.bot;
  deleted = member.deleted;
  activity_status = member.activity_status;
  last_seen = member.last_seen;
}

abbrev pub has_user : ℕ → MemberRow → Bool
has_user uid row = elim row.telegram_user_id [ none ↦ false | some id ↦ id == uid ]

-- `telegram_user_id IS NULL AND lower(username)=lower(?)`
abbrev pub is_fallback : Text → MemberRow → Bool
is_fallback username row =
    not (is_some row.telegram_user_id)
    && elim row.username [ none ↦ false | some name ↦ text_eq (lower name) (lower username) ]

unfoldable pub find_user : ℕ → Database → Option MemberRow
find_user uid db = find (has_user uid) db.members

unfoldable pub find_fallback : Option Text → Database → Option MemberRow
find_fallback none db = none
find_fallback (some username) db = find (is_fallback username) db.members

unfoldable pub update_member : ℕ → Option ℕ → Option Text → Member → Database → Database
unfolding write_row
update_member id uid username member db = record db {
  members =
      update_where (λ row. row.id == id) (λ row. write_row row.id uid username member) db.members;
}

unfoldable pub insert_member : Option ℕ → Option Text → Member → Database → Database × ℕ
unfolding write_row
insert_member uid username member db = (
  record db {
    members = db.members ++ write_row db.next_member uid username member ∷ [];
    next_member = db.next_member + 1;
  },
  db.next_member,
)

abbrev pub in_dataset : ℕ → ℕ → DatasetMemberRow → Bool
in_dataset dataset_id member_id row = row.dataset_id == dataset_id && row.member_id == member_id

-- INSERT OR IGNORE with the primary key (dataset_id, member_id)
unfoldable pub add_dataset_member : DatasetMemberRow → List DatasetMemberRow → List DatasetMemberRow
add_dataset_member new rows =
    if is_some (find (in_dataset new.dataset_id new.member_id) rows) then rows else rows ++ new ∷ []

-- COALESCE(a,-1)=COALESCE(b,-1) of two ids
same_number : Option ℕ → Option ℕ → Bool
same_number none none = true
same_number (some a) (some b) = a == b
same_number _ _ = false

-- COALESCE(label,'')
label_text : Option Text → Text
label_text none = []
label_text (some label) = label

-- Equal keys of idx_dataset_provenance_nullsafe_unique
unfoldable pub same_provenance : ProvenanceRow → ProvenanceRow → Bool
unfolding same_number label_text
same_provenance a b =
    a.dataset_id == b.dataset_id
    && a.member_id == b.member_id
    && same_number a.source_dataset_id b.source_dataset_id
    && same_number a.source_group_id b.source_group_id
    && text_eq (label_text a.source_label) (label_text b.source_label)

-- INSERT OR IGNORE with that index, which implies the UNIQUE constraint of the table
unfoldable pub add_provenance : ProvenanceRow → List ProvenanceRow → List ProvenanceRow
unfolding same_provenance
add_provenance new rows =
    if is_some (find (same_provenance new) rows) then rows else rows ++ new ∷ []

move_members : ℕ → List DatasetMemberRow → List DatasetMemberRow → List DatasetMemberRow
unfolding add_dataset_member
move_members canonical [] rows = rows
move_members canonical (moved ∷ rest) rows =
    move_members canonical rest (add_dataset_member (record moved { member_id = canonical }) rows)

move_provenance : ℕ → List ProvenanceRow → List ProvenanceRow → List ProvenanceRow
unfolding add_provenance
move_provenance canonical [] rows = rows
move_provenance canonical (moved ∷ rest) rows =
    move_provenance canonical rest (add_provenance (record moved { member_id = canonical }) rows)

-- `_merge_fallback_row`; the rows of the deleted member go by ON DELETE CASCADE, and `none` is the
-- IntegrityError where a migration item refers to it.
unfoldable pub merge_fallback_row : ℕ → ℕ → Database → Option Database
unfolding move_members move_provenance
merge_fallback_row fallback canonical db =
    if fallback == canonical
    then some db
    else if is_some (find (λ item. item.member_id == fallback) db.items)
    then none
    else some (record db {
      members = select (λ row. not (row.id == fallback)) db.members;
      dataset_members =
          select (λ row. not (row.member_id == fallback))
            (move_members canonical (select (λ row. row.member_id == fallback) db.dataset_members)
              db.dataset_members);
      provenance =
          select (λ row. not (row.member_id == fallback))
            (move_provenance canonical (select (λ row. row.member_id == fallback) db.provenance)
              db.provenance);
    })

abbrev with_id : ℕ → Option Database → Option (Database × Option ℕ)
with_id id none = none
with_id id (some db) = some (db, some id)

-- The INSERT … ON CONFLICT(telegram_user_id) DO UPDATE, and the id of the row
unfoldable pub upsert_user : ℕ → Option Text → Member → Database → Database × ℕ
unfolding update_member insert_member find_user
upsert_user uid username member db = elim (find_user uid db) [
  | some row ↦ (update_member row.id (some uid) username member db, row.id)
  | none ↦ insert_member (some uid) username member db
]

-- By the row of the user and the username-only row, where there are any.
upsert_known :
    Option MemberRow
    → Option MemberRow
    → ℕ
    → Option Text
    → Member
    → Database
    → Option (Database × Option ℕ)
unfolding upsert_user update_member merge_fallback_row
upsert_known none (some fallback) uid username member db =
    some (update_member fallback.id (some uid) username member db, some fallback.id)
upsert_known existing none uid username member db =
    let (db', id) = upsert_user uid username member db in some (db', some id)
upsert_known (some row) (some fallback) uid username member db =
    let (db', id) = upsert_user uid username member db in
    with_id id (merge_fallback_row fallback.id id db')

upsert_named : Option MemberRow → Option Text → Member → Database → Database × ℕ
unfolding update_member insert_member
upsert_named (some row) username member db = (update_member row.id none username member db, row.id)
upsert_named none username member db = insert_member none username member db

-- `_upsert_one`: the row's id, or none for a member without an identity; `none` is an exception.
unfoldable pub upsert_one : Member → Database → Option (Database × Option ℕ)
unfolding clean_username find_user find_fallback upsert_known upsert_named
upsert_one member db =
    let username = clean_username member.username in
    elim member.telegram_user_id [
      | some uid ↦
          upsert_known (find_user uid db) (find_fallback username db) uid username member db
      | none ↦
          if is_some username
          then (let (db', id) = upsert_named (find_fallback username db) username member db in
              some (db', some id))
          else some (db, none)
    ]

-- The arguments of `submit_ingest_batch` beside the members.
pub record Source : Type 0 where
  pub dataset_id : ℕ
  pub source_group_id : Option ℕ
  pub account_id : Option ℕ
  pub source_label : Option Text

pub record IngestSummary : Type 0 where
  pub accepted : ℕ
  pub invalid : ℕ
  pub local_member_ids : List ℕ

abbrev is_peer : ℕ → ℕ → PeerRow → Bool
is_peer account_id peer_id row = row.account_id == account_id && row.peer_id == peer_id

-- INSERT … ON CONFLICT(account_id,peer_id) DO UPDATE, which keeps the title
unfoldable pub add_peer : ℕ → ℕ → ℤ → Option Text → List PeerRow → List PeerRow
add_peer account_id peer_id hash username rows =
    if is_some (find (is_peer account_id peer_id) rows)
    then update_where (is_peer account_id peer_id)
        (λ row. record row { peer_type = "User"; access_hash = some hash; username = username })
        rows
    else rows
      ++ record {
        account_id = account_id;
        peer_id = peer_id;
        peer_type = "User";
        access_hash = some hash;
        username = username;
        title = none;
      }
        ∷ []

unfoldable pub cache_peer : Option ℕ → Member → List PeerRow → List PeerRow
unfolding add_peer clean_username
cache_peer (some account_id) member rows = elim member.telegram_user_id [
  | none ↦ rows
  | some uid ↦ elim member.access_hash [
    | none ↦ rows
    | some hash ↦ add_peer account_id uid hash (clean_username member.username) rows
  ]
]
cache_peer none member rows = rows

-- Whether the foreign keys of the rows to insert hold.
group_exists : Option ℕ → Database → Bool
group_exists none db = true
group_exists (some id) db = is_some (find (λ row. row.id == id) db.groups)

account_exists : Option ℕ → Member → Database → Bool
account_exists none member db = true
account_exists (some id) member db =
    not (is_some member.telegram_user_id && is_some member.access_hash)
    || is_some (find (λ row. row.id == id) db.accounts)

unfoldable pub parents_exist : Source → Member → Database → Bool
unfolding group_exists account_exists
parents_exist source member db =
    is_some (find (λ row. row.id == source.dataset_id) db.datasets)
    && group_exists source.source_group_id db
    && account_exists source.account_id member db

-- What a member that has a row is recorded with, and whether the dataset has it newly.
unfoldable pub record_member : Source → ℕ → Member → Database → Database × ℕ
unfolding add_dataset_member add_provenance cache_peer
record_member source local_id member db =
    let rows =
      add_dataset_member
        (record {
          dataset_id = source.dataset_id;
          member_id = local_id;
          source_group_id = source.source_group_id;
        })
        db.dataset_members in
    (
      record db {
        dataset_members = rows;
        provenance =
            add_provenance
              (record {
                dataset_id = source.dataset_id;
                member_id = local_id;
                source_dataset_id = none;
                source_group_id = source.source_group_id;
                source_label = source.source_label;
              })
              db.provenance;
        peer_cache = cache_peer source.account_id member db.peer_cache;
      },
      length rows - length db.dataset_members,
    )

-- The loop of the transaction; `none` is an exception, which rolls it back.
unfoldable pub ingest_members :
    Source → List Member → IngestSummary → Database → Option (Database × IngestSummary)
unfolding upsert_one record_member parents_exist
ingest_members source [] summary db = some (db, summary)
ingest_members source (member ∷ members) summary db = elim (upsert_one member db) [
  | none ↦ none
  | some (db', none) ↦
      ingest_members source members (record summary { invalid = summary.invalid + 1 }) db'
  | some (db', some local_id) ↦
      let (db'', added) = record_member source local_id member db' in
      let rest =
        ingest_members source members
          (record summary {
            accepted = summary.accepted + added;
            local_member_ids = summary.local_member_ids ++ local_id ∷ [];
          })
          db'' in
      if parents_exist source member db' then rest else none
]

count_members : ℕ → Database → Database
count_members dataset_id db =
    let count = count_where (λ row. row.dataset_id == dataset_id) db.dataset_members in
    record db {
      datasets =
          update_where (λ row. row.id == dataset_id) (λ row. record row { member_count = count })
            db.datasets;
    }

-- `submit_ingest_batch`
unfoldable pub ingest_batch : Source → List Member → Database → Option (Database × IngestSummary)
unfolding ingest_members count_members
ingest_batch source members db =
    elim (ingest_members source members
      (record { accepted = 0; invalid = 0; local_member_ids = [] }) db) [
        | none ↦ none
        | some (db', summary) ↦ some (count_members source.dataset_id db', summary)
      ]
