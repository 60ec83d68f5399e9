-- ===== src/Datasets/Counts.antt =====
-- The rows that src/tms/datasets/service.py leaves for the combined dataset.
use telegramv.Prelude.{
  ℕ, true, false, not, List, [], ◌∷◌, ◌++◌, map, ◌==◌, ==_iff, select, contains, Bool-cases, ◌≡◌,
  refl, inl, inr, arith, subst, sym, ◌∙◌, none, some, String, find-update-last, length,
}
use mathlib.Core.Option
use mathlib.Core.List.{append-nil, append_assoc}
use telegramv.Storage.{DatasetMemberRow, Database}
use telegramv.Members.Repository.{add_dataset_member}
use telegramv.Datasets
use telegramv.Datasets.{member_ids}
use telegramv.Datasets.Engines.{distinct}
use telegramv.Datasets.Keys.{
  IsKeyed, IsDistinct, find-member_ids, distinct-IsDistinct, select-IsDistinct,
  member_ids-IsDistinct,
}
use telegramv.Datasets.Sets.{contains-append}
use telegramv.Datasets.Service.{
  Operation, in_either, datasets_of, selected_ids, add_ids, combine_datasets, combined,
}

selected_ids-IsDistinct :
    (op : Operation) (a b : ℕ) (rows : List DatasetMemberRow)
    → IsKeyed rows
    → IsDistinct (selected_ids op a b rows)
unfolding selected_ids
selected_ids-IsDistinct Operation.union a b rows k =
    distinct-IsDistinct (map (λ row. row.member_id) (select (in_either a b) rows))
selected_ids-IsDistinct Operation.intersection a b rows k =
    select-IsDistinct (λ id. datasets_of id (select (in_either a b) rows) == 2)
      (distinct (map (λ row. row.member_id) (select (in_either a b) rows)))
      (distinct-IsDistinct (map (λ row. row.member_id) (select (in_either a b) rows)))
selected_ids-IsDistinct Operation.difference a b rows k =
    select-IsDistinct (λ id. not (contains (member_ids b rows) id)) (member_ids a rows)
      (member_ids-IsDistinct a rows k)

snoc_ids :
    (d id : ℕ) (rows : List DatasetMemberRow)
    → member_ids d (rows ++ record { dataset_id = d; member_id = id; source_group_id = none } ∷ [])
      ≡ member_ids d rows ++ id ∷ []
snoc_ids d id [] = ground arith
snoc_ids d id (row ∷ rows) = elim (Bool-cases (row.dataset_id == d)) [
  | inl e ↦ rw (e, snoc_ids d id rows) refl
  | inr e ↦ rw (e, snoc_ids d id rows) refl
]

-- Members that are new to the dataset, each named once, are its last members.
pub member_ids-add_ids :
    (d : ℕ) (ids : List ℕ) (rows : List DatasetMemberRow)
    → IsDistinct ids
    → ((n : ℕ) → contains ids n ≡ true → contains (member_ids d rows) n ≡ false)
    → member_ids d (add_ids d ids rows) ≡ member_ids d rows ++ ids
unfolding add_ids add_dataset_member
member_ids-add_ids d [] rows unique fresh = sym (append-nil (member_ids d rows))
member_ids-add_ids d (id ∷ ids) rows (once, unique) fresh =
    let new : DatasetMemberRow = record {
      dataset_id = d;
      member_id = id;
      source_group_id = none;
    } in
    let absent : contains (member_ids d rows) id ≡ false = fresh id (ground arith) in
    let added : member_ids d (add_dataset_member new rows) ≡ member_ids d rows ++ id ∷ [] =
      rw (find-member_ids d id rows, absent) (snoc_ids d id rows) in
    member_ids-add_ids d ids (add_dataset_member new rows) unique (λ n h.
      rw (added, contains-append (member_ids d rows) (id ∷ []) n, fresh n (rw h (ground arith)))
        (elim (Bool-cases (id == n)) [
          | inl e ↦
              let again : contains ids id ≡ true =
                subst (λ k. contains ids k ≡ true) (sym ((==_iff id n).0 e)) h in
              ground arith
          | inr e ↦ rw e refl
        ]))
    ∙ rw (added, append_assoc (member_ids d rows) (id ∷ []) ids) refl

-- The member count of the combined dataset is the number of its members, where the tables keep their
-- keys and no row has an id that is not given out yet.
pub combine-count :
    (name : String) (a b : ℕ) (op : Operation) (db : Database)
    → IsKeyed db.dataset_members
    → Datasets.get db.next_dataset db ≡ none
    → member_ids db.next_dataset db.dataset_members ≡ []
    → Option.map
        (λ row. row.member_count)
        (Datasets.get db.next_dataset (combine_datasets name a b op db).0)
      ≡ some
          (length (member_ids db.next_dataset (combine_datasets name a b op db).0.dataset_members))
unfolding combine_datasets Datasets.create Datasets.get Datasets.new_row
combine-count name a b op db k absent fresh =
    rw
      (
        find-update-last (λ row. row.id == db.next_dataset)
            (λ row. record row { member_count = length (selected_ids op a b db.dataset_members) })
            db.datasets (Datasets.new_row db.next_dataset (combined name op a b)) absent
            ((==_iff db.next_dataset db.next_dataset).1 refl)
            ((==_iff db.next_dataset db.next_dataset).1 refl),
        member_ids-add_ids db.next_dataset (selected_ids op a b db.dataset_members)
            db.dataset_members (selected_ids-IsDistinct op a b db.dataset_members k)
            (λ n h. rw fresh refl),
        fresh,
      )
      refl
