-- ===== src/Datasets/Service.antt =====
-- src/tms/datasets/service.py. Texts are ASCII. SQL promises no order of the ids that the rows of a
-- dataset are inserted in.
use telegramv.Prelude.{
  ℕ, Bool, not, ◌||◌, List, [], ◌∷◌, map, Option, none, some, String, string_append, show, codes,
  lower, text_eq, ◌==◌, str_eq, if◌then◌else◌, select, contains, length, update_where,
}
use telegramv.Storage.{Database, DatasetMemberRow, ProvenanceRow}
use telegramv.Members.Repository.{add_dataset_member, add_provenance}
use telegramv.Datasets
use telegramv.Datasets.{member_ids}
use telegramv.Datasets.Engines.{distinct}

pub data Operation : Type 0 where
  union intersection difference : Operation

abbrev pub operation_name : Operation → String
operation_name Operation.union = "UNION"
operation_name Operation.intersection = "INTERSECTION"
operation_name Operation.difference = "DIFFERENCE"

is_name : Operation → String → Bool
is_name op name = text_eq (lower (codes name)) (lower (codes (operation_name op)))

unfoldable pub operation_of : String → Option Operation
unfolding is_name
operation_of name =
    if is_name Operation.union name
    then some Operation.union
    else if is_name Operation.intersection name
    then some Operation.intersection
    else if is_name Operation.difference name
    then some Operation.difference
    else none

abbrev pub in_either : ℕ → ℕ → DatasetMemberRow → Bool
in_either a b row = row.dataset_id == a || row.dataset_id == b

-- COUNT(DISTINCT dataset_id) of the group of a member
unfoldable pub datasets_of : ℕ → List DatasetMemberRow → ℕ
unfolding distinct
datasets_of member_id rows =
    length
      (distinct (map (λ row. row.dataset_id) (select (λ row. row.member_id == member_id) rows)))

-- The SELECT of an operation.
unfoldable pub selected_ids : Operation → ℕ → ℕ → List DatasetMemberRow → List ℕ
unfolding distinct datasets_of
selected_ids Operation.union a b rows =
    distinct (map (λ row. row.member_id) (select (in_either a b) rows))
selected_ids Operation.intersection a b rows =
    let group = select (in_either a b) rows in
    select (λ id. datasets_of id group == 2) (distinct (map (λ row. row.member_id) group))
selected_ids Operation.difference a b rows =
    select (λ id. not (contains (member_ids b rows) id)) (member_ids a rows)

-- The INSERT OR IGNORE of the members.
unfoldable pub add_ids : ℕ → List ℕ → List DatasetMemberRow → List DatasetMemberRow
unfolding add_dataset_member
add_ids dataset_id [] rows = rows
add_ids dataset_id (id ∷ ids) rows = add_ids dataset_id ids (
    add_dataset_member (record { dataset_id = dataset_id; member_id = id; source_group_id = none })
      rows)

-- The INSERT OR IGNORE of what a source dataset has, under its label.
unfoldable pub add_origins : ℕ → ℕ → String → List ℕ → List ProvenanceRow → List ProvenanceRow
unfolding add_provenance
add_origins dataset_id source_id label [] rows = rows
add_origins dataset_id source_id label (id ∷ ids) rows =
    add_origins dataset_id source_id label ids (
      add_provenance
        (record {
          dataset_id = dataset_id;
          member_id = id;
          source_dataset_id = some source_id;
          source_group_id = none;
          source_label = some (codes label);
        })
        rows)

abbrev pub combined_name : String → Operation → ℕ → ℕ → String
combined_name name op a b =
    if str_eq name ""
    then string_append (operation_name op)
        (string_append " " (string_append (show a) (string_append "/" (show b))))
    else name

abbrev pub combined_reference : Operation → ℕ → ℕ → String
combined_reference op a b =
    string_append (show a)
      (string_append ":" (string_append (show b) (string_append ":" (operation_name op))))

abbrev pub combined : String → Operation → ℕ → ℕ → Datasets.Dataset
combined name op a b = record {
  name = combined_name name op a b;
  source_type = "MERGED";
  source_reference = some (combined_reference op a b);
  status = "READY";
  member_count = 0;
}

-- The transaction of `combine`.
unfoldable pub combine_datasets : String → ℕ → ℕ → Operation → Database → Database × ℕ
unfolding selected_ids add_ids add_origins
combine_datasets name a b op db =
    let (created, new_id) = Datasets.create (combined name op a b) db in
    let ids = selected_ids op a b created.dataset_members in
    let rows = add_ids new_id ids created.dataset_members in
    (
      record created {
        dataset_members = rows;
        provenance =
            add_origins new_id b "B" (member_ids b rows)
              (add_origins new_id a "A" (member_ids a rows) created.provenance);
        datasets =
            update_where (λ row. row.id == new_id) (λ row. record row { member_count = length ids })
              created.datasets;
      },
      new_id,
    )

-- `combine`; `none` is the ValueError.
unfoldable pub combine : String → ℕ → ℕ → String → Database → Option (Database × ℕ)
unfolding operation_of combine_datasets
combine name a b operation db = elim (operation_of operation) [
  | none ↦ none
  | some op ↦ some (combine_datasets name a b op db)
]
