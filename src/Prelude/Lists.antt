-- ===== src/Prelude/Lists.antt =====
-- Lists measured by native numbers, and the list operations of the program's SQL and loops.
use Prim.Native.Nat.{ℕ, zero, suc, ◌+◌, ◌-◌, ◌≤◌, ◌<◌}
use mathlib.Core.Path.{◌≡◌, refl, sym, subst, ap, ◌∙◌}
use mathlib.Core.Bool.{Bool, true, false, ◌||◌}
use mathlib.Core.Logic.{inl, inr}
use mathlib.Core.List.{List, [], ◌∷◌, ◌++◌, map}
use mathlib.Core.Option
use mathlib.Core.Option.{Option, none, some}
use native.Mathlib.Omega.{arith}
use telegramv.Prelude.Tests.{if◌then◌else◌, ◌==◌, leb, is_some, or_else, Bool-cases}

module _ {ℓ} {A : Type ℓ} where
  abbrev pub length : List A → ℕ
  length [] = 0
  length (x ∷ xs) = suc (length xs)

  abbrev pub take : ℕ → List A → List A
  take zero xs = []
  take (suc n) [] = []
  take (suc n) (x ∷ xs) = x ∷ take n xs

  abbrev pub drop : ℕ → List A → List A
  drop zero xs = xs
  drop (suc n) [] = []
  drop (suc n) (x ∷ xs) = drop n xs

  -- WHERE
  abbrev pub select : (A → Bool) → List A → List A
  select p [] = []
  select p (x ∷ xs) = let rest = select p xs in if p x then x ∷ rest else rest

  -- LIMIT 1
  abbrev pub find : (A → Bool) → List A → Option A
  find p [] = none
  find p (x ∷ xs) = let rest = find p xs in if p x then some x else rest

  -- UPDATE … WHERE
  abbrev pub update_where : (A → Bool) → (A → A) → List A → List A
  update_where p f [] = []
  update_where p f (x ∷ xs) = (if p x then f x else x) ∷ update_where p f xs

  abbrev pub count_where : (A → Bool) → List A → ℕ
  count_where p [] = 0
  count_where p (x ∷ xs) = (if p x then 1 else 0) + count_where p xs

  insert_by : (A → ℕ) → A → List A → List A
  insert_by key x [] = x ∷ []
  insert_by key x (y ∷ ys) =
      let rest = insert_by key x ys in if leb (key x) (key y) then x ∷ y ∷ ys else y ∷ rest

  -- ORDER BY, ascending
  unfoldable pub sort_by : (A → ℕ) → List A → List A
  unfolding insert_by
  sort_by key [] = []
  sort_by key (x ∷ xs) = insert_by key x (sort_by key xs)

  pub length-append : (xs ys : List A) → length (xs ++ ys) ≡ length xs + length ys
  length-append [] ys = omega arith
  length-append (x ∷ xs) ys = omega (arith, length-append xs ys)

  pub length-snoc : (xs : List A) (x : A) → length (xs ++ x ∷ []) ≡ length xs + 1
  length-snoc xs x = omega (arith, length-append xs (x ∷ []))

  pub length-update_where :
      (p : A → Bool) (f : A → A) (xs : List A) → length (update_where p f xs) ≡ length xs
  length-update_where p f [] = refl
  length-update_where p f (x ∷ xs) = omega (arith, length-update_where p f xs)

  pub length-take-le : (n : ℕ) (xs : List A) → length (take n xs) ≤ n
  length-take-le zero xs = omega arith
  length-take-le (suc n) [] = omega arith
  length-take-le (suc n) (x ∷ xs) = omega (arith, length-take-le n xs)

module _ {ℓ} {A : Type ℓ} where
  pub length-drop : (n : ℕ) (xs : List A) → length (drop n xs) ≡ length xs - n
  length-drop zero xs = omega arith
  length-drop (suc n) [] = omega arith
  length-drop (suc n) (x ∷ xs) = omega (arith, length-drop n xs)

  pub drop-snoc :
      (n : ℕ) (xs : List A) (x : A) → n ≤ length xs → drop n (xs ++ x ∷ []) ≡ drop n xs ++ x ∷ []
  drop-snoc zero xs x h = refl
  drop-snoc (suc n) [] x h = absurd (omega arith)
  drop-snoc (suc n) (y ∷ xs) x h = drop-snoc n xs x (omega arith)

  drop-nil : (n : ℕ) → Path (List A) (drop n []) []
  drop-nil zero = refl
  drop-nil (suc n) = refl

  pub drop-drop : (n k : ℕ) (xs : List A) → drop n (drop k xs) ≡ drop (n + k) xs
  drop-drop n zero xs = ap (λ k. drop k xs) (omega arith)
  drop-drop n (suc k) [] = drop-nil n ∙ sym (drop-nil (n + suc k))
  drop-drop n (suc k) (x ∷ xs) =
      let deeper : suc (n + k) ≡ n + suc k = omega arith in
      drop-drop n k xs ∙ ap (λ k. drop k (x ∷ xs)) deeper

  -- Behind what was taken stands what dropping leaves.
  pub drop-length-take : (n : ℕ) (xs : List A) → drop (length (take n xs)) xs ≡ drop n xs
  drop-length-take zero xs = refl
  drop-length-take (suc n) [] = refl
  drop-length-take (suc n) (x ∷ xs) = drop-length-take n xs

  -- Fewer than were asked for are all that there are.
  pub take-short : (n : ℕ) (xs : List A) → length (take n xs) < n → take n xs ≡ xs
  take-short zero xs h = absurd (omega arith)
  take-short (suc n) [] h = refl
  take-short (suc n) (x ∷ xs) h = ap (λ r. x ∷ r) (take-short n xs (omega arith))

  pub take-drop : (n : ℕ) (xs : List A) → take n xs ++ drop n xs ≡ xs
  take-drop zero xs = refl
  take-drop (suc n) [] = refl
  take-drop (suc n) (x ∷ xs) = ap (λ r. x ∷ r) (take-drop n xs)

-- `x in xs`
abbrev pub contains : List ℕ → ℕ → Bool
contains [] a = false
contains (x ∷ xs) a = x == a || contains xs a

abbrev pub All {ℓ κ} : {A : Type ℓ} → (A → Type κ) → List A → Type κ
All P [] = Unit
All P (x ∷ xs) = P x × All P xs

module _ {ℓ} {A : Type ℓ} where
  pub find-is_some :
      (p q : A → Bool) (x : A) (xs : List A)
      → find p xs ≡ some x
      → q x ≡ true
      → is_some (find q xs) ≡ true
  find-is_some p q x [] e h = ground arith
  find-is_some p q x (y ∷ ys) e h = elim (Bool-cases (q y)) [
    | inl k ↦ rw k refl
    | inr k ↦ elim (Bool-cases (p y)) [
      | inl l ↦
          let found : some y ≡ some x = rw l at e in
          let same : q y ≡ true =
            subst (λ o. is_some o ≡ true → q (or_else o y) ≡ true) (sym found) (λ _. h) refl in
          ground arith
      | inr l ↦ rw k (find-is_some p q x ys (rw l at e) h)
    ]
  ]

  -- What is found where the rows that pass a test were changed by `f` is such a changed row.
  pub find-update_where :
      (p : A → Bool) (f : A → A)
      → ((x : A) → p x ≡ true → p (f x) ≡ true)
      → (y : A) (xs : List A) → find p (update_where p f xs) ≡ some y
      → (x : A) × (some (f x) ≡ some y)
  find-update_where p f keep y [] e = ground arith
  find-update_where p f keep y (x ∷ xs) e = elim (Bool-cases (p x)) [
    | inl k ↦ (x, rw (k, keep x k) at e)
    | inr k ↦ find-update_where p f keep y xs (rw (k, k) at e)
  ]

  insert_by-contains :
      (key : A → ℕ) (x : A) (xs : List A) (n : ℕ)
      → contains (map key (insert_by key x xs)) n ≡ (key x == n || contains (map key xs) n)
  unfolding insert_by
  insert_by-contains key x [] n = refl
  insert_by-contains key x (y ∷ ys) n = elim (Bool-cases (leb (key x) (key y))) [
    | inl e ↦ rw e refl
    | inr e ↦ rw (e, insert_by-contains key x ys n) (ground arith)
  ]

  -- Sorting by a key keeps which keys there are.
  pub sort_by-contains :
      (key : A → ℕ) (xs : List A) (n : ℕ)
      → contains (map key (sort_by key xs)) n ≡ contains (map key xs) n
  unfolding sort_by
  sort_by-contains key [] n = refl
  sort_by-contains key (x ∷ xs) n =
      rw (insert_by-contains key x (sort_by key xs) n, sort_by-contains key xs n) refl

pub find-append {ℓ} :
    {A : Type ℓ} (p : A → Bool) (xs ys : List A)
    → is_some (find p (xs ++ ys)) ≡ (is_some (find p xs) || is_some (find p ys))
find-append p [] ys = refl
find-append p (x ∷ xs) ys = elim (Bool-cases (p x)) [
  | inl e ↦ rw e refl
  | inr e ↦ rw (e, find-append p xs ys) refl
]

-- The row that was appended is the one that is updated, where no other passes the test.
pub find-update-last {ℓ} :
    {A : Type ℓ} (p : A → Bool) (f : A → A) (xs : List A) (x : A)
    → find p xs ≡ none
    → p x ≡ true
    → p (f x) ≡ true
    → find p (update_where p f (xs ++ x ∷ [])) ≡ some (f x)
find-update-last p f [] x absent h k = rw (h, k) refl
find-update-last p f (y ∷ xs) x absent h k = elim (Bool-cases (p y)) [
  | inl e ↦ (let clash : some y ≡ none = rw e at absent in ground arith)
  | inr e ↦ rw (e, e) (find-update-last p f xs x (rw e at absent) h k)
]

-- What is found where what passes a test was changed, the change keeping the test.
pub find-changed {ℓ} :
    {A : Type ℓ} (p : A → Bool) (f : A → A) (xs : List A)
    → ((x : A) → p (f x) ≡ p x)
    → find p (update_where p f xs) ≡ Option.map f (find p xs)
find-changed p f [] same = refl
find-changed p f (x ∷ xs) same = elim (Bool-cases (p x)) [
  | inl e ↦ rw (e, same x, e) refl
  | inr e ↦ rw (e, e) (find-changed p f xs same)
]

-- The row that was appended is found where no other passes the test.
pub find-last {ℓ} :
    {A : Type ℓ} (p : A → Bool) (xs : List A) (x : A)
    → find p xs ≡ none
    → p x ≡ true
    → find p (xs ++ x ∷ []) ≡ some x
find-last p [] x absent h = rw h refl
find-last p (y ∷ xs) x absent h = elim (Bool-cases (p y)) [
  | inl e ↦ (let clash : some y ≡ none = rw e at absent in ground arith)
  | inr e ↦ rw e (find-last p xs x (rw e at absent) h)
]
