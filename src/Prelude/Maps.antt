-- ===== src/Prelude/Maps.antt =====
-- Python dictionaries as association lists: the first place of a key is kept when it is assigned to.
use mathlib.Core.Path.{◌≡◌, refl, sym, subst}
use mathlib.Core.Bool.{Bool, true, false}
use mathlib.Core.Logic.{inl, inr}
use mathlib.Core.List.{List, [], ◌∷◌}
use mathlib.Core.Option.{Option, none, some}
use telegramv.Prelude.Tests.{if◌then◌else◌, Bool-cases}

module _ {K V : Type 0} (eq : K → K → Bool) where
  -- `d.get(key)`
  unfoldable pub lookup : K → List (K × V) → Option V
  lookup key [] = none
  lookup key ((k, v) ∷ rest) = let found = lookup key rest in if eq k key then some v else found

  -- `d[key] = value`
  unfoldable pub assign : K → V → List (K × V) → List (K × V)
  assign key value [] = (key, value) ∷ []
  assign key value ((k, v) ∷ rest) =
      let others = assign key value rest in if eq k key then (k, value) ∷ rest else (k, v) ∷ others

  -- `d.pop(key, None)`
  unfoldable pub remove : K → List (K × V) → List (K × V)
  remove key [] = []
  remove key ((k, v) ∷ rest) =
      let others = remove key rest in if eq k key then others else (k, v) ∷ others

  -- `d.values()`
  unfoldable pub values : List (K × V) → List V
  values [] = []
  values ((k, v) ∷ rest) = v ∷ values rest

  pub lookup-assign-same :
      (key : K) (value : V) (d : List (K × V))
      → eq key key ≡ true
      → lookup key (assign key value d) ≡ some value
  unfolding lookup assign
  lookup-assign-same key value [] h = rw h refl
  lookup-assign-same key value ((k, v) ∷ rest) h = elim (Bool-cases (eq k key)) [
    | inl e ↦ rw (e, e) refl
    | inr e ↦ rw (e, e) (lookup-assign-same key value rest h)
  ]

  -- For a test that tells that keys are the same.
  pub lookup-assign-other :
      (key other : K) (value : V) (d : List (K × V))
      → ((a b : K) → eq a b ≡ true → a ≡ b)
      → eq key other ≡ false
      → lookup other (assign key value d) ≡ lookup other d
  unfolding lookup assign
  lookup-assign-other key other value [] same h = rw h refl
  lookup-assign-other key other value ((k, v) ∷ rest) same h = elim (Bool-cases (eq k key)) [
    | inl e ↦
        let apart : eq k other ≡ false = subst (λ x. eq x other ≡ false) (sym (same k key e)) h in
        rw (e, apart) refl
    | inr e ↦ elim (Bool-cases (eq k other)) [
      | inl l ↦ rw (e, l) refl
      | inr l ↦ rw (e, l) (lookup-assign-other key other value rest same h)
    ]
  ]

  pub lookup-remove-same : (key : K) (d : List (K × V)) → lookup key (remove key d) ≡ none
  unfolding lookup remove
  lookup-remove-same key [] = refl
  lookup-remove-same key ((k, v) ∷ rest) = elim (Bool-cases (eq k key)) [
    | inl e ↦ rw e (lookup-remove-same key rest)
    | inr e ↦ rw (e, e) (lookup-remove-same key rest)
  ]

  pub lookup-remove-other :
      (key other : K) (d : List (K × V))
      → ((a b : K) → eq a b ≡ true → a ≡ b)
      → eq key other ≡ false
      → lookup other (remove key d) ≡ lookup other d
  unfolding lookup remove
  lookup-remove-other key other [] same h = refl
  lookup-remove-other key other ((k, v) ∷ rest) same h = elim (Bool-cases (eq k key)) [
    | inl e ↦
        let apart : eq k other ≡ false = subst (λ x. eq x other ≡ false) (sym (same k key e)) h in
        rw (e, apart) (lookup-remove-other key other rest same h)
    | inr e ↦ rw e (elim (Bool-cases (eq k other)) [
      | inl l ↦ rw l refl
      | inr l ↦ rw l (lookup-remove-other key other rest same h)
    ])
  ]
