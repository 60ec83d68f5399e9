-- ===== src/Runtime/DbWriter/Batching.antt =====
-- The answers that the writer of src/tms/runtime/db_writer.py gives.
use mathlib.Core.List.{append_assoc, append-nil}
use telegramv.Prelude.{
  Bool-cases, select, not, ℕ, ◌≡◌, refl, sym, ◌∙◌, ap, subst, Bool, true, false, List, [], ◌∷◌,
  ◌++◌, map, Option, none, some, String, arith, ◌⊎◌, inl, inr,
}
use telegramv.Runtime.DbWriter.{
  Result, succeeded, raised, WriteTask, Item, task, quiet, stop, Sqlite, Writer, run_all, answer,
  zip_results, fail_tasks, transaction, commit_batch, flush_pending, waiting, place, take_task, run,
  with_result,
}

map-append : {A : Type 0} (f : A → ℕ) (xs ys : List A) → map f (xs ++ ys) ≡ map f xs ++ map f ys
map-append f [] ys = refl
map-append f (x ∷ xs) ys = ap (λ l. f x ∷ l) (map-append f xs ys)

Result-cases :
    {A : Type 0} (m : Result A)
    → ((a : A) × (m ≡ succeeded a)) ⊎ ((error : String) × (m ≡ raised error))
Result-cases (succeeded a) = inl (a, refl)
Result-cases (raised error) = inr (error, refl)

value : {A : Type 0} → A → Result A → A
value a (succeeded b) = b
value a (raised error) = a

pub succeeded_injective : {A : Type 0} (a b : A) → succeeded a ≡ succeeded b → a ≡ b
unfolding value
succeeded_injective a b h = ap (value a) h

not_raised : {A : Type 0} (error : String) (a : A) → raised error ≡ succeeded a → ⊥
not_raised error a h = ground arith

module _ {S R : Type 0} where
  -- The tasks whose callers have not cancelled them.
  abbrev pub ids : List (WriteTask S R) → List ℕ
  ids ts = map (λ t. t.id) (select (λ t. not t.done) ts)

  ids-append : (xs ys : List (WriteTask S R)) → ids (xs ++ ys) ≡ ids xs ++ ids ys
  ids-append [] ys = refl
  ids-append (t ∷ xs) ys = elim (Bool-cases t.done) [
    | inl e ↦ rw e (ids-append xs ys)
    | inr e ↦ rw e (ap (λ l. t.id ∷ l) (ids-append xs ys))
  ]

  ids-answer :
      (t : WriteTask S R) (r : Result R) (ts : List (WriteTask S R)) (others : List (ℕ × Result R))
      → map (λ a. a.0) others ≡ ids ts
      → map (λ a. a.0) (answer t r others) ≡ ids (t ∷ ts)
  unfolding answer
  ids-answer t r ts others h = elim (Bool-cases t.done) [
    | inl e ↦ rw e h
    | inr e ↦ rw e (ap (λ l. t.id ∷ l) h)
  ]

  abbrev pub answered : Writer S R → List ℕ
  answered w = map (λ a. a.0) w.answers

  -- The tasks that the queue holds before the first stop.
  abbrev pub tasks : List (Item S R) → List (WriteTask S R)
  tasks [] = []
  tasks (task t ∷ items) = t ∷ tasks items
  tasks (quiet ∷ items) = tasks items
  tasks (stop ∷ items) = []

  -- The queue has a stop.
  abbrev pub stops : List (Item S R) → Bool
  stops [] = false
  stops (task t ∷ items) = stops items
  stops (quiet ∷ items) = stops items
  stops (stop ∷ items) = true

  fail-ids :
      (error : String) (ts : List (WriteTask S R)) → map (λ a. a.0) (fail_tasks error ts) ≡ ids ts
  unfolding fail_tasks
  fail-ids error [] = refl
  fail-ids error (t ∷ ts) = ids-answer t (raised error) ts (fail_tasks error ts) (fail-ids error ts)

  with_result-succeeded :
      (r : R) (m : Result (S × List R)) (s : S) (rs : List R)
      → with_result r m ≡ succeeded (s, rs)
      → (rest : List R) × (m ≡ succeeded (s, rest)) × (r ∷ rest ≡ rs)
  unfolding with_result
  with_result-succeeded r (succeeded (s', rest)) s rs h =
      let e = succeeded_injective (s', r ∷ rest) (s, rs) h in
      (rest, ap (λ x. succeeded (x, rest)) (ap (λ p. p.0) e), ap (λ p. p.1) e)
  with_result-succeeded r (raised error) s rs h = absurd (not_raised error (s, rs) h)

  -- The first task of a batch that succeeds, and the rest of the batch.
  pub run_all-first :
      (t : WriteTask S R) (ts : List (WriteTask S R)) (s s' : S) (rs : List R)
      → run_all (t ∷ ts) s ≡ succeeded (s', rs)
      → (mid : S) × (r : R) × (rest : List R) × (t.operation s ≡ succeeded (mid, r))
        × (run_all ts mid ≡ succeeded (s', rest))
        × (r ∷ rest ≡ rs)
  unfolding run_all
  run_all-first t ts s s' rs h = elim (Result-cases (t.operation s)) [
    | inl ((mid, r), e) ↦
        let (rest, k, l) = with_result-succeeded r (run_all ts mid) s' rs (rw e at h) in
        (mid, r, rest, e, k, l)
    | inr (error, e) ↦ absurd (not_raised error (s', rs) (rw e at h))
  ]

  -- A batch that succeeds has a result for each of its tasks.
  zip-ids :
      (ts : List (WriteTask S R)) (s s' : S) (rs : List R)
      → run_all ts s ≡ succeeded (s', rs)
      → map (λ a. a.0) (zip_results ts rs) ≡ ids ts
  unfolding zip_results
  zip-ids [] s s' rs h = refl
  zip-ids (t ∷ ts) s s' rs h =
      let (mid, r, rest, e, k, l) = run_all-first t ts s s' rs h in
      subst (λ x. map (λ a. a.0) (zip_results (t ∷ ts) x) ≡ ids (t ∷ ts)) l
        (ids-answer t (succeeded r) ts (zip_results ts rest) (zip-ids ts mid s' rest k))

  transaction-ids :
      (b c : Option String) (ts : List (WriteTask S R)) (s : S)
      → map (λ a. a.0) (transaction b c ts s).1 ≡ ids ts
  unfolding transaction
  transaction-ids (some error) c ts s = fail-ids error ts
  transaction-ids none (some error) ts s = elim (Result-cases (run_all ts s)) [
    | inl (p, e) ↦ rw (transaction, e) (fail-ids error ts)
    | inr (error', e) ↦ rw (transaction, e) (fail-ids error' ts)
  ]
  transaction-ids none none ts s = elim (Result-cases (run_all ts s)) [
    | inl ((s', rs), e) ↦ rw (transaction, e) (zip-ids ts s s' rs e)
    | inr (error', e) ↦ rw (transaction, e) (fail-ids error' ts)
  ]

  module _ (sqlite : Sqlite) where
    commit-answered :
        (ts : List (WriteTask S R)) (w : Writer S R)
        → answered (commit_batch sqlite ts w) ≡ answered w ++ ids ts
    unfolding commit_batch
    commit-answered [] w = sym (append-nil (answered w))
    commit-answered (t ∷ ts) w =
        map-append (λ a. a.0) w.answers _
        ∙ ap (λ l. answered w ++ l) (transaction-ids _ _ (t ∷ ts) w.db)

    -- The answered tasks and then the pending ones.
    abbrev taken : Writer S R → List ℕ
    taken w = answered w ++ ids w.pending

    flush-taken : (w : Writer S R) → taken (flush_pending sqlite w) ≡ taken w
    unfolding flush_pending
    flush-taken w = append-nil _ ∙ commit-answered w.pending w

    waiting-taken :
        (t : WriteTask S R) (w : Writer S R) → taken (waiting sqlite t w) ≡ taken w ++ ids (t ∷ [])
    unfolding waiting
    waiting-taken t w =
        ap (λ l. answered w ++ l) (ids-append w.pending (t ∷ []))
        ∙ sym (append_assoc (answered w) (ids w.pending) (ids (t ∷ [])))

    place-taken :
        (critical full : Bool) (t : WriteTask S R) (w : Writer S R)
        → taken (place sqlite critical full t w) ≡ taken w ++ ids (t ∷ [])
    unfolding place
    place-taken true full t w =
        append-nil _
        ∙ commit-answered (t ∷ []) (flush_pending sqlite w)
        ∙ ap (λ l. l ++ ids (t ∷ [])) (sym (append-nil _) ∙ flush-taken w)
    place-taken false true t w = flush-taken (waiting sqlite t w) ∙ waiting-taken t w
    place-taken false false t w = waiting-taken t w

    run-taken :
        (batch_limit : ℕ) (items : List (Item S R)) (w : Writer S R)
        → stops items ≡ true
        → taken (run sqlite batch_limit items w) ≡ taken w ++ ids (tasks items)
    unfolding run take_task
    run-taken batch_limit [] w h = ground arith
    run-taken batch_limit (task t ∷ items) w h =
        run-taken batch_limit items (take_task sqlite batch_limit t w) h
        ∙ ap (λ l. l ++ ids (tasks items)) (place-taken t.critical _ t w)
        ∙ append_assoc (taken w) (ids (t ∷ [])) (ids (tasks items))
        ∙ ap (λ l. taken w ++ l) (sym (ids-append (t ∷ []) (tasks items)))
    run-taken batch_limit (quiet ∷ items) w h =
        run-taken batch_limit items (flush_pending sqlite w) h
        ∙ ap (λ l. l ++ ids (tasks items)) (flush-taken w)
    run-taken batch_limit (stop ∷ items) w h = flush-taken w ∙ sym (append-nil (taken w))

    nothing_left :
        (batch_limit : ℕ) (items : List (Item S R)) (w : Writer S R)
        → stops items ≡ true
        → (run sqlite batch_limit items w).pending ≡ []
    unfolding run flush_pending
    nothing_left batch_limit [] w h = ground arith
    nothing_left batch_limit (task t ∷ items) w h =
        nothing_left batch_limit items (take_task sqlite batch_limit t w) h
    nothing_left batch_limit (quiet ∷ items) w h =
        nothing_left batch_limit items (flush_pending sqlite w) h
    nothing_left batch_limit (stop ∷ items) w h = refl

-- Once the writer is stopped, it has answered each task that came before the stop once, in the
-- order of their arrival, whatever fails, but for those whose callers have cancelled them, and none that came behind it; nothing stays pending.
pub run-answered :
    {S R : Type 0} (sqlite : Sqlite) (batch_limit : ℕ) (items : List (Item S R)) (w : Writer S R)
    → stops items ≡ true
    → w.pending ≡ []
    → (answered (run sqlite batch_limit items w) ≡ answered w ++ ids (tasks items))
      × ((run sqlite batch_limit items w).pending ≡ [])
run-answered sqlite batch_limit items w h empty =
    let left = nothing_left sqlite batch_limit items w h in
    (
      sym (rw left (append-nil _))
          ∙ run-taken sqlite batch_limit items w h
          ∙ rw empty (ap (λ l. l ++ ids (tasks items)) (append-nil (answered w))),
      left,
    )
