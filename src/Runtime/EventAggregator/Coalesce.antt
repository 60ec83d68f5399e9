-- ===== src/Runtime/EventAggregator/Coalesce.antt =====
-- What src/tms/runtime/event_aggregator.py hands to the user interface.
use telegramv.Prelude.{
  ℕ, ◌+◌, ◌-◌, ◌≤◌, Bool, true, false, not, ◌&&◌, List, [], ◌∷◌, ◌++◌, Option, none, some, String,
  str_eq, if◌then◌else◌, length, length-snoc, drop, length-drop, drop-snoc, drop-drop, select,
  Bool-cases, ◌≡◌, refl, inl, inr, arith, sym, ◌∙◌, ap, eq_iff, subst,
}
use telegramv.Prelude.Maps.{lookup, assign, lookup-assign-same, lookup-assign-other}
use mathlib.Core.List.{append-nil, append_assoc}
use telegramv.Core.{DomainEvent}
use telegramv.Runtime.EventAggregator.{
  keep_last, is_progress, Aggregator, init, progress_key, push, push_all,
}

module _ {A : Type 0} where
  -- Appending to the last few is keeping the last few of the whole.
  keep_last-snoc :
      (m : ℕ) (xs : List A) (x : A)
      → keep_last m (keep_last m xs ++ x ∷ []) ≡ keep_last m (xs ++ x ∷ [])
  unfolding keep_last
  keep_last-snoc m xs x =
      let k : ℕ = length xs - m in
      let whole : drop k (xs ++ x ∷ []) ≡ drop k xs ++ x ∷ [] = drop-snoc k xs x (omega arith) in
      let j : ℕ = length (drop k xs ++ x ∷ []) - m in
      let lengths : j + k ≡ length (xs ++ x ∷ []) - m =
        omega (arith, length-snoc (drop k xs) x, length-drop k xs, length-snoc xs x) in
      ap (drop j) (sym whole)
      ∙ drop-drop j k (xs ++ x ∷ [])
      ∙ ap (λ n. drop n (xs ++ x ∷ [])) lengths

  keep_last-nil : (m : ℕ) → Path (List A) [] (keep_last m [])
  unfolding keep_last
  keep_last-nil m = let none_over : 0 ≡ 0 - m = omega arith in ap (λ n. drop n []) none_over

  length-keep_last : (m : ℕ) (xs : List A) → length (keep_last m xs) ≤ m
  unfolding keep_last
  length-keep_last m xs = omega (arith, length-drop (length xs - m) xs)

module _ {V : Type 0} (str : V → String) where
  abbrev pub is_plain : DomainEvent V → Bool
  is_plain event = not (is_progress event.name)

  -- The last of the progress events with a key, or else the event before them.
  unfoldable pub last_progress :
      String → List (DomainEvent V) → Option (DomainEvent V) → Option (DomainEvent V)
  unfolding is_progress progress_key
  last_progress key [] before = before
  last_progress key (event ∷ events) before =
      last_progress key events (
        if is_progress event.name && str_eq (progress_key str event) key
        then some event
        else before)

  after_progress : DomainEvent V → Aggregator V → Aggregator V
  after_progress event a = record a {
    latest_progress = assign str_eq (progress_key str event) event a.latest_progress;
  }

  after_plain : DomainEvent V → Aggregator V → Aggregator V
  after_plain event a = record a { events = keep_last a.max_recent (a.events ++ event ∷ []) }

  push-progress :
      (event : DomainEvent V) (a : Aggregator V)
      → is_progress event.name ≡ true
      → push str event a ≡ after_progress event a
  unfolding push after_progress
  push-progress event a e = rw e refl

  push-plain :
      (event : DomainEvent V) (a : Aggregator V)
      → is_progress event.name ≡ false
      → push str event a ≡ after_plain event a
  unfolding push after_plain
  push-plain event a e = rw e refl

  recent :
      (xs es : List (DomainEvent V)) (a : Aggregator V)
      → a.events ≡ keep_last a.max_recent xs
      → (push_all str es a).events ≡ keep_last a.max_recent (xs ++ select is_plain es)
  unfolding push_all after_progress after_plain
  recent xs [] a h = h ∙ ap (keep_last a.max_recent) (sym (append-nil xs))
  recent xs (event ∷ es) a h = elim (Bool-cases (is_progress event.name)) [
    | inl e ↦
        ap (λ b. (push_all str es b).events) (push-progress event a e)
        ∙ recent xs es (after_progress event a) h
        ∙ rw e refl
    | inr e ↦
        ap (λ b. (push_all str es b).events) (push-plain event a e)
        ∙ recent (xs ++ event ∷ []) es (after_plain event a) (
            ap (λ l. keep_last a.max_recent (l ++ event ∷ [])) h
            ∙ keep_last-snoc a.max_recent xs event)
        ∙ ap (keep_last a.max_recent) (append_assoc xs (event ∷ []) (select is_plain es))
        ∙ rw e refl
  ]

  -- Assigning under one key, looked up under any.
  assigned :
      (key : String) (event : DomainEvent V) (d : List (String × DomainEvent V))
      → lookup str_eq key (assign str_eq (progress_key str event) event d)
        ≡ (if str_eq (progress_key str event) key then some event else lookup str_eq key d)
  assigned key event d = elim (Bool-cases (str_eq (progress_key str event) key)) [
    | inl e ↦
        let same : progress_key str event ≡ key = (eq_iff (progress_key str event) key).0 e in
        rw e (
          subst (λ k. lookup str_eq k (assign str_eq (progress_key str event) event d) ≡ some event)
            same
            (lookup-assign-same str_eq (progress_key str event) event d
              ((eq_iff (progress_key str event) (progress_key str event)).1 refl)))
    | inr e ↦
        rw e (
          lookup-assign-other str_eq (progress_key str event) key event d (λ a b. (eq_iff a b).0) e)
  ]

  latest :
      (key : String) (es : List (DomainEvent V)) (a : Aggregator V)
      → lookup str_eq key (push_all str es a).latest_progress
        ≡ last_progress key es (lookup str_eq key a.latest_progress)
  unfolding push_all last_progress after_progress after_plain
  latest key [] a = refl
  latest key (event ∷ es) a = elim (Bool-cases (is_progress event.name)) [
    | inl e ↦
        ap (λ b. lookup str_eq key (push_all str es b).latest_progress) (push-progress event a e)
        ∙ latest key es (after_progress event a)
        ∙ ap (last_progress key es) (assigned key event a.latest_progress)
        ∙ rw e refl
    | inr e ↦
        ap (λ b. lookup str_eq key (push_all str es b).latest_progress) (push-plain event a e)
        ∙ latest key es (after_plain event a)
        ∙ rw e refl
  ]

  -- What a drain after any events finds: the last events that are not progress, as many as the bound
  -- allows and in order, and for each key the last progress event that has it.
  pub drain_exact :
      (max_recent : ℕ) (es : List (DomainEvent V))
      → ((push_all str es (init max_recent)).events ≡ keep_last max_recent (select is_plain es))
        × ((key : String)
            → lookup str_eq key (push_all str es (init max_recent)).latest_progress
              ≡ last_progress key es none)
  unfolding init lookup
  drain_exact max_recent es = (
    recent [] es (init max_recent) (keep_last-nil max_recent),
    λ key. latest key es (init max_recent),
  )
