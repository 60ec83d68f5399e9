-- ===== src/Datasets/Sets/Combine.antt =====
-- src/tms/datasets/service.py against the set operations of the three engines.
use telegramv.Prelude.{
  ℕ, true, false, not, ◌&&◌, ◌||◌, List, [], ◌∷◌, ◌++◌, map, ◌==◌, ==_iff, select, find, contains,
  is_some, Bool-cases, ◌≡◌, refl, inl, inr, arith, subst, sym, ◌∙◌, none, String, find-append,
}
use telegramv.Storage.{DatasetMemberRow, Database}
use telegramv.Members.Repository.{in_dataset, add_dataset_member}
use telegramv.Datasets
use telegramv.Datasets.{member_ids}
use telegramv.Datasets.Engines
use telegramv.Datasets.Engines.{distinct}
use telegramv.Datasets.Keys.{find-member_ids, contains-distinct, contains-select}
use telegramv.Datasets.Service.{
  Operation, in_either, datasets_of, selected_ids, add_ids, combine_datasets,
}
use telegramv.Datasets.Sets.{
  contains-append, either-contains, dataset_ids, dataset_ids-member_ids, dataset_ids-either,
  length-either, length-same,
}

-- The engine of an operation.
abbrev pub engine : Operation → List ℕ → List ℕ → List ℕ
engine Operation.union = Engines.union
engine Operation.intersection = Engines.intersection
engine Operation.difference = Engines.difference

datasets_of-both :
    (a b m : ℕ) (rows : List DatasetMemberRow)
    → (a == b) ≡ false
    → (datasets_of m (select (in_either a b) rows) == 2)
      ≡ (contains (member_ids a rows) m && contains (member_ids b rows) m)
unfolding datasets_of
datasets_of-both a b m rows apart =
    rw
      (
        dataset_ids-either a b m rows,
        length-either a b (dataset_ids m rows) apart,
        dataset_ids-member_ids a m rows,
        dataset_ids-member_ids b m rows,
      )
      (ground arith)

-- The SELECT finds the members that the engine computes.
selected_ids-engine :
    (op : Operation) (a b m : ℕ) (rows : List DatasetMemberRow)
    → (a == b) ≡ false
    → contains (selected_ids op a b rows) m
      ≡ contains (engine op (member_ids a rows) (member_ids b rows)) m
unfolding selected_ids Engines.union Engines.intersection Engines.difference
selected_ids-engine Operation.union a b m rows apart =
    rw
      (
        contains-distinct (map (λ row. row.member_id) (select (in_either a b) rows)) m,
        contains-distinct (member_ids a rows ++ member_ids b rows) m,
        contains-append (member_ids a rows) (member_ids b rows) m,
      )
      (either-contains a b m rows)
selected_ids-engine Operation.intersection a b m rows apart =
    rw
      (
        contains-select (λ id. datasets_of id (select (in_either a b) rows) == 2)
            (distinct (map (λ row. row.member_id) (select (in_either a b) rows))) m,
        contains-distinct (map (λ row. row.member_id) (select (in_either a b) rows)) m,
        either-contains a b m rows,
        datasets_of-both a b m rows apart,
        contains-distinct (select (contains (member_ids b rows)) (member_ids a rows)) m,
        contains-select (contains (member_ids b rows)) (member_ids a rows) m,
      )
      (ground arith)
selected_ids-engine Operation.difference a b m rows apart =
    sym (
      contains-distinct (select (λ id. not (contains (member_ids b rows) id)) (member_ids a rows))
        m)

add_dataset_member-contains :
    (d id m : ℕ) (rows : List DatasetMemberRow)
    → contains
        (member_ids d (
          add_dataset_member
            (record { dataset_id = d; member_id = id; source_group_id = none })
            rows))
        m
      ≡ (id == m || contains (member_ids d rows) m)
unfolding add_dataset_member
add_dataset_member-contains d id m rows =
    let new : DatasetMemberRow = record {
      dataset_id = d;
      member_id = id;
      source_group_id = none;
    } in
    elim (Bool-cases (is_some (find (in_dataset d id) rows))) [
      | inl e ↦
          let held : contains (member_ids d rows) id ≡ true = sym (find-member_ids d id rows) ∙ e in
          rw e (elim (Bool-cases (id == m)) [
            | inl k ↦
                rw k (subst (λ n. contains (member_ids d rows) n ≡ true) ((==_iff id m).0 k) held)
            | inr k ↦ rw k refl
          ])
      | inr e ↦ rw e (
          sym (find-member_ids d m (rows ++ new ∷ []))
          ∙ rw (find-append (in_dataset d m) rows (new ∷ []), find-member_ids d m rows)
              (ground arith))
    ]

-- A member is in the dataset when it was inserted, or was in it before.
pub add_ids-contains :
    (d m : ℕ) (ids : List ℕ) (rows : List DatasetMemberRow)
    → contains (member_ids d (add_ids d ids rows)) m
      ≡ (contains ids m || contains (member_ids d rows) m)
unfolding add_ids
add_ids-contains d m [] rows = refl
add_ids-contains d m (id ∷ ids) rows =
    let new : DatasetMemberRow = record {
      dataset_id = d;
      member_id = id;
      source_group_id = none;
    } in
    rw
      (
        add_ids-contains d m ids (add_dataset_member new rows),
        add_dataset_member-contains d id m rows,
      )
      (ground arith)

-- The combined dataset has exactly the members that the engine of the operation computes from those
-- of two different datasets, where no row refers to an id that is not given out yet.
pub combine-engine :
    (name : String) (a b m : ℕ) (op : Operation) (db : Database)
    → (a == b) ≡ false
    → member_ids db.next_dataset db.dataset_members ≡ []
    → contains (member_ids db.next_dataset (combine_datasets name a b op db).0.dataset_members) m
      ≡ contains (engine op (member_ids a db.dataset_members) (member_ids b db.dataset_members)) m
unfolding combine_datasets Datasets.create
combine-engine name a b m op db apart fresh =
    rw
      (
        add_ids-contains db.next_dataset m (selected_ids op a b db.dataset_members)
            db.dataset_members,
        fresh,
        selected_ids-engine op a b m db.dataset_members apart,
      )
      (ground arith)

datasets_of-same :
    (a m : ℕ) (rows : List DatasetMemberRow)
    → (datasets_of m (select (in_either a a) rows) == 2) ≡ false
unfolding datasets_of
datasets_of-same a m rows =
    rw (dataset_ids-either a a m rows, length-same a (dataset_ids m rows)) (ground arith)

selected_ids-same :
    (a m : ℕ) (rows : List DatasetMemberRow)
    → contains (selected_ids Operation.intersection a a rows) m ≡ false
unfolding selected_ids
selected_ids-same a m rows =
    contains-select (λ id. datasets_of id (select (in_either a a) rows) == 2)
      (distinct (map (λ row. row.member_id) (select (in_either a a) rows))) m
    ∙ rw (datasets_of-same a m rows) (ground arith)

-- A dataset that is intersected with itself gives a dataset without members, where no row refers to
-- an id that is not given out yet.
pub combine_with_itself :
    (name : String) (a m : ℕ) (db : Database)
    → member_ids db.next_dataset db.dataset_members ≡ []
    → contains
        (member_ids db.next_dataset
          (combine_datasets name a a Operation.intersection db).0.dataset_members)
        m
      ≡ false
unfolding combine_datasets Datasets.create
combine_with_itself name a m db fresh =
    rw
      (
        add_ids-contains db.next_dataset m
            (selected_ids Operation.intersection a a db.dataset_members) db.dataset_members,
        fresh,
        selected_ids-same a m db.dataset_members,
      )
      refl
