-- ===== src/Datasets/Sets.antt =====
-- The rows of two datasets, for src/tms/datasets/service.py.
pub mod Combine
use telegramv.Prelude.{
  ℕ, ◌+◌, Bool, true, false, not, ◌&&◌, ◌||◌, List, [], ◌∷◌, ◌++◌, map, ◌==◌, ==_iff, select, find,
  contains, is_some, Bool-cases, Bools, two_cases, ◌≡◌, refl, inl, inr, arith, subst, sym, ◌∙◌, ap,
  none, String, length, find-append, if◌then◌else◌,
}
use telegramv.Storage.{DatasetMemberRow, Database}
use telegramv.Members.Repository.{in_dataset, add_dataset_member}
use telegramv.Datasets
use telegramv.Datasets.{member_ids}
use telegramv.Datasets.Engines
use telegramv.Datasets.Engines.{distinct}
use telegramv.Datasets.Keys.{find-member_ids, contains-distinct, contains-select}
use telegramv.Datasets.Service.{
  Operation, in_either, datasets_of, selected_ids, add_ids, combine_datasets,
}

pub contains-append :
    (xs ys : List ℕ) (n : ℕ) → contains (xs ++ ys) n ≡ (contains xs n || contains ys n)
contains-append [] ys n = refl
contains-append (x ∷ xs) ys n = rw (contains-append xs ys n) (ground arith)

-- The members of the rows of two datasets.
pub either-contains :
    (a b m : ℕ) (rows : List DatasetMemberRow)
    → contains (map (λ row. row.member_id) (select (in_either a b) rows)) m
      ≡ (contains (member_ids a rows) m || contains (member_ids b rows) m)
either-contains a b m [] = refl
either-contains a b m (row ∷ rows) = elim (two_cases (row.dataset_id == a) (row.dataset_id == b)) [
  | Bools.both e k ↦ rw (e, k, either-contains a b m rows) (ground arith)
  | Bools.first e k ↦ rw (e, k, either-contains a b m rows) (ground arith)
  | Bools.second e k ↦ rw (e, k, either-contains a b m rows) (ground arith)
  | Bools.neither e k ↦ rw (e, k, either-contains a b m rows) refl
]

abbrev pub bit : Bool → ℕ
bit b = if b then 1 else 0

-- The datasets of the rows of one member.
abbrev pub dataset_ids : ℕ → List DatasetMemberRow → List ℕ
dataset_ids m rows = map (λ row. row.dataset_id) (select (λ row. row.member_id == m) rows)

pub dataset_ids-member_ids :
    (d m : ℕ) (rows : List DatasetMemberRow)
    → contains (dataset_ids m rows) d ≡ contains (member_ids d rows) m
dataset_ids-member_ids d m [] = refl
dataset_ids-member_ids d m (row ∷ rows) =
    elim (two_cases (row.dataset_id == d) (row.member_id == m)) [
      | Bools.both e k ↦ rw (e, k) (rw e refl)
      | Bools.first e k ↦ rw (e, k, dataset_ids-member_ids d m rows) refl
      | Bools.second e k ↦ rw (e, k, dataset_ids-member_ids d m rows) (rw e refl)
      | Bools.neither e k ↦ rw (e, k, dataset_ids-member_ids d m rows) refl
    ]

pub dataset_ids-either :
    (a b m : ℕ) (rows : List DatasetMemberRow)
    → dataset_ids m (select (in_either a b) rows)
      ≡ select (λ d. d == a || d == b) (dataset_ids m rows)
dataset_ids-either a b m [] = refl
dataset_ids-either a b m (row ∷ rows) = elim (two_cases (in_either a b row) (row.member_id == m)) [
  | Bools.both e k ↦ rw (e, k) (rw (e, dataset_ids-either a b m rows) refl)
  | Bools.first e k ↦ rw (e, k) (dataset_ids-either a b m rows)
  | Bools.second e k ↦ rw (e, k) (rw (e, dataset_ids-either a b m rows) refl)
  | Bools.neither e k ↦ rw (e, k) (dataset_ids-either a b m rows)
]

length-distinct :
    (x : ℕ) (xs : List ℕ)
    → length (distinct (x ∷ xs)) ≡ length (distinct xs) + bit (not (contains xs x))
unfolding distinct
length-distinct x xs =
    rw (sym (contains-distinct xs x)) (elim (Bool-cases (contains (distinct xs) x)) [
      | inl e ↦ rw e (omega arith)
      | inr e ↦ rw e (omega arith)
    ])

-- Whether a list has a number that is let through by a test.
contains-kept :
    (p : ℕ → Bool) (d a : ℕ) (ds : List ℕ)
    → (d == a) ≡ true
    → p d ≡ true
    → contains (select p ds) d ≡ contains ds a
contains-kept p d a ds e k =
    contains-select p ds d
    ∙ rw k (subst (λ n. (contains ds d && true) ≡ contains ds n) ((==_iff d a).0 e) (ground arith))

-- Of two different datasets, how many of them there are in a list.
pub length-either :
    (a b : ℕ) (ds : List ℕ)
    → (a == b) ≡ false
    → length (distinct (select (λ d. d == a || d == b) ds))
      ≡ bit (contains ds a) + bit (contains ds b)
unfolding distinct
length-either a b [] apart = refl
length-either a b (d ∷ ds) apart =
    let p : ℕ → Bool = λ n. n == a || n == b in
    elim (two_cases (d == a) (d == b)) [
      | Bools.both e k ↦ ground arith
      | Bools.first e k ↦
          rw (e, k)
            (length-distinct d (select p ds)
              ∙ rw (contains-kept p d a ds e (rw e refl), length-either a b ds apart)
                  (ground arith))
      | Bools.second e k ↦
          rw (e, k)
            (length-distinct d (select p ds)
              ∙ rw (contains-kept p d b ds k (rw (e, k) refl), length-either a b ds apart)
                  (ground arith))
      | Bools.neither e k ↦ rw (e, k) (length-either a b ds apart)
    ]

pub length-same :
    (a : ℕ) (ds : List ℕ)
    → length (distinct (select (λ d. d == a || d == a) ds)) ≡ bit (contains ds a)
unfolding distinct
length-same a [] = refl
length-same a (d ∷ ds) =
    let p : ℕ → Bool = λ n. n == a || n == a in
    elim (Bool-cases (d == a)) [
      | inl e ↦ rw e (
          length-distinct d (select p ds)
          ∙ rw (contains-kept p d a ds e (rw e refl), length-same a ds) (ground arith))
      | inr e ↦ rw e (length-same a ds)
    ]
