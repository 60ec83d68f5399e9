-- ===== src/Datasets.antt =====
-- src/tms/datasets: models.py and repository.py. An operation is the transaction that the repository
-- hands to the database writer.
pub mod Engines
pub mod Service
pub mod Keys
pub mod Sets
pub mod Counts
use telegramv.Prelude.{
  ℕ, ◌+◌, List, [], ◌∷◌, ◌++◌, map, Option, none, some, String, ◌==◌, select, find, sort_by,
}
use mathlib.Core.List.{reverse}
use telegramv.Storage.{Database, DatasetRow, DatasetMemberRow, MemberRow}

-- A dataset that has no row yet.
pub record Dataset : Type 0 where
  pub name : String
  pub source_type : String
  pub source_reference : Option String
  pub status : String
  pub member_count : ℕ

unfoldable pub new_row : ℕ → Dataset → DatasetRow
new_row id dataset = record {
  id = id;
  name = dataset.name;
  source_type = dataset.source_type;
  source_reference = dataset.source_reference;
  status = dataset.status;
  member_count = dataset.member_count;
}

unfoldable pub create : Dataset → Database → Database × ℕ
unfolding new_row
create dataset db = (
  record db {
    datasets = db.datasets ++ new_row db.next_dataset dataset ∷ [];
    next_dataset = db.next_dataset + 1;
  },
  db.next_dataset,
)

unfoldable pub get : ℕ → Database → Option DatasetRow
get dataset_id db = find (λ row. row.id == dataset_id) db.datasets

unfoldable pub list_all : Database → List DatasetRow
list_all db = reverse (sort_by (λ row. row.id) db.datasets)

-- The ids of the members of a dataset.
abbrev pub member_ids : ℕ → List DatasetMemberRow → List ℕ
member_ids dataset_id rows =
    map (λ row. row.member_id) (select (λ row. row.dataset_id == dataset_id) rows)

-- JOIN members m ON m.id = dm.member_id
unfoldable pub join_members : List ℕ → List MemberRow → List MemberRow
join_members [] members = []
join_members (id ∷ ids) members = select (λ row. row.id == id) members ++ join_members ids members

unfoldable pub member_rows : ℕ → Database → List MemberRow
unfolding join_members
member_rows dataset_id db =
    join_members (sort_by (λ id. id) (member_ids dataset_id db.dataset_members)) db.members
