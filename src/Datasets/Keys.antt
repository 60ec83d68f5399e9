-- ===== src/Datasets/Keys.antt =====
-- src/tms/datasets/service.py with the primary key (dataset_id, member_id) of dataset_members.
use telegramv.Prelude.{
  ℕ, Bool, true, false, ◌&&◌, List, [], ◌∷◌, ◌++◌, ◌==◌, ==_iff, select, find, contains, is_some,
  Bool-cases, ◌≡◌, refl, find-append, inl, inr, arith, subst, sym, ◌∙◌, ap, none,
}
use telegramv.Storage.{DatasetMemberRow}
use telegramv.Members.Repository.{in_dataset, add_dataset_member}
use telegramv.Datasets.{member_ids}
use telegramv.Datasets.Engines.{distinct}
use telegramv.Datasets.Service.{add_ids}

-- No two rows have the same key.
abbrev pub IsKeyed : List DatasetMemberRow → Type 0
IsKeyed [] = Unit
IsKeyed (row ∷ rows) =
    (is_some (find (in_dataset row.dataset_id row.member_id) rows) ≡ false) × IsKeyed rows

abbrev pub IsDistinct : List ℕ → Type 0
IsDistinct [] = Unit
IsDistinct (x ∷ xs) = (contains xs x ≡ false) × IsDistinct xs

-- A test of a key is the test of the id among the members of the dataset.
pub find-member_ids :
    (d m : ℕ) (rows : List DatasetMemberRow)
    → is_some (find (in_dataset d m) rows) ≡ contains (member_ids d rows) m
find-member_ids d m [] = refl
find-member_ids d m (row ∷ rows) = elim (Bool-cases (row.dataset_id == d)) [
  | inl e ↦ elim (Bool-cases (row.member_id == m)) [
    | inl k ↦ rw (e, k) refl
    | inr k ↦ rw (e, k, find-member_ids d m rows) refl
  ]
  | inr e ↦ rw (e, find-member_ids d m rows) refl
]

pub distinct-IsDistinct : (xs : List ℕ) → IsDistinct (distinct xs)
unfolding distinct
distinct-IsDistinct [] = tt
distinct-IsDistinct (x ∷ xs) = elim (Bool-cases (contains (distinct xs) x)) [
  | inl e ↦ rw e (distinct-IsDistinct xs)
  | inr e ↦ rw e (e, distinct-IsDistinct xs)
]

pub contains-distinct : (xs : List ℕ) (n : ℕ) → contains (distinct xs) n ≡ contains xs n
unfolding distinct
contains-distinct [] n = refl
contains-distinct (x ∷ xs) n = elim (Bool-cases (contains (distinct xs) x)) [
  | inl e ↦ elim (Bool-cases (x == n)) [
    | inl k ↦
        let found : contains (distinct xs) n ≡ true =
          subst (λ y. contains (distinct xs) y ≡ true) ((==_iff x n).0 k) e in
        rw (e, k, found) refl
    | inr k ↦ rw (e, k, contains-distinct xs n) refl
  ]
  | inr e ↦ rw (e, contains-distinct xs n) refl
]

pub contains-select :
    (p : ℕ → Bool) (xs : List ℕ) (n : ℕ) → contains (select p xs) n ≡ (contains xs n && p n)
contains-select p [] n = refl
contains-select p (x ∷ xs) n = elim (Bool-cases (x == n)) [
  | inl k ↦
      let same : p x ≡ p n = ap p ((==_iff x n).0 k) in
      elim (Bool-cases (p n)) [
        | inl e ↦ rw (same, e, k) refl
        | inr e ↦ rw (same, e, k, contains-select p xs n) (rw e (ground arith))
      ]
  | inr k ↦ elim (Bool-cases (p x)) [
    | inl e ↦ rw (e, k, contains-select p xs n) refl
    | inr e ↦ rw (e, k, contains-select p xs n) refl
  ]
]

pub select-IsDistinct : (p : ℕ → Bool) (xs : List ℕ) → IsDistinct xs → IsDistinct (select p xs)
select-IsDistinct p [] d = tt
select-IsDistinct p (x ∷ xs) (fresh, d) = elim (Bool-cases (p x)) [
  | inl e ↦ rw e (rw (contains-select p xs x, fresh) refl, select-IsDistinct p xs d)
  | inr e ↦ rw e (select-IsDistinct p xs d)
]

pub member_ids-IsDistinct :
    (d : ℕ) (rows : List DatasetMemberRow) → IsKeyed rows → IsDistinct (member_ids d rows)
member_ids-IsDistinct d [] k = tt
member_ids-IsDistinct d (row ∷ rows) (fresh, k) = elim (Bool-cases (row.dataset_id == d)) [
  | inl e ↦
      let absent : contains (member_ids d rows) row.member_id ≡ false =
        subst (λ n. contains (member_ids n rows) row.member_id ≡ false)
          ((==_iff row.dataset_id d).0 e)
          (sym (find-member_ids row.dataset_id row.member_id rows) ∙ fresh) in
      rw e (absent, member_ids-IsDistinct d rows k)
  | inr e ↦ rw e (member_ids-IsDistinct d rows k)
]

in_dataset-sym :
    (a b : DatasetMemberRow)
    → in_dataset a.dataset_id a.member_id b ≡ false
    → is_some (find (in_dataset b.dataset_id b.member_id) (a ∷ [])) ≡ false
in_dataset-sym a b e = ground arith

snoc-IsKeyed :
    (new : DatasetMemberRow) (rows : List DatasetMemberRow)
    → is_some (find (in_dataset new.dataset_id new.member_id) rows) ≡ false
    → IsKeyed rows
    → IsKeyed (rows ++ new ∷ [])
snoc-IsKeyed new [] fresh k = (refl, tt)
snoc-IsKeyed new (row ∷ rows) fresh (apart, k) =
    elim (Bool-cases (in_dataset new.dataset_id new.member_id row)) [
      | inl e ↦ (let clash : true ≡ false = rw e at fresh in ground arith)
      | inr e ↦ (
        rw (find-append (in_dataset row.dataset_id row.member_id) rows (new ∷ []), apart)
            (in_dataset-sym new row e),
        snoc-IsKeyed new rows (rw e at fresh) k,
      )
    ]

pub add_dataset_member-IsKeyed :
    (new : DatasetMemberRow) (rows : List DatasetMemberRow)
    → IsKeyed rows
    → IsKeyed (add_dataset_member new rows)
unfolding add_dataset_member
add_dataset_member-IsKeyed new rows k =
    elim (Bool-cases (is_some (find (in_dataset new.dataset_id new.member_id) rows))) [
      | inl e ↦ rw e k
      | inr e ↦ rw e (snoc-IsKeyed new rows e k)
    ]

pub add_ids-IsKeyed :
    (d : ℕ) (ids : List ℕ) (rows : List DatasetMemberRow)
    → IsKeyed rows
    → IsKeyed (add_ids d ids rows)
unfolding add_ids
add_ids-IsKeyed d [] rows k = k
add_ids-IsKeyed d (id ∷ ids) rows k =
    add_ids-IsKeyed d ids
      (add_dataset_member (record { dataset_id = d; member_id = id; source_group_id = none }) rows)
      (add_dataset_member-IsKeyed
        (record { dataset_id = d; member_id = id; source_group_id = none }) rows k)
