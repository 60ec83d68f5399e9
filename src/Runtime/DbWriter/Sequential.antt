-- ===== src/Runtime/DbWriter/Sequential.antt =====
-- The writer of src/tms/runtime/db_writer.py against the operations run one after another.
use mathlib.Core.List.{append_assoc, append-nil}
use telegramv.Prelude.{
  Bool-cases, inl, inr, ℕ, ◌≡◌, refl, sym, ◌∙◌, ap, subst, Bool, true, false, List, [], ◌∷◌, ◌++◌,
  none, arith,
}
use telegramv.Runtime.DbWriter.{
  Result, succeeded, WriteTask, Item, task, quiet, stop, Sqlite, Writer, run_all, answer,
  zip_results, transaction, commit_batch, flush_pending, waiting, place, take_task, run,
  with_result,
}
use telegramv.Runtime.DbWriter.Batching.{
  tasks, stops, run_all-first, succeeded_injective, run-answered,
}

module _ {S R : Type 0} where
  first-run_all :
      (t : WriteTask S R) (ts : List (WriteTask S R)) (s mid s' : S) (r : R) (rest : List R)
      → t.operation s ≡ succeeded (mid, r)
      → run_all ts mid ≡ succeeded (s', rest)
      → run_all (t ∷ ts) s ≡ succeeded (s', r ∷ rest)
  unfolding run_all with_result
  first-run_all t ts s mid s' r rest e k = rw (run_all, e, k) refl

  answer-append :
      (t : WriteTask S R) (r : Result R) (xs ys : List (ℕ × Result R))
      → answer t r (xs ++ ys) ≡ answer t r xs ++ ys
  unfolding answer
  answer-append t r xs ys = elim (Bool-cases t.done) [ inl e ↦ rw e refl | inr e ↦ rw e refl ]

  -- A batch is its first part and then the rest.
  run_all-split :
      (xs ys : List (WriteTask S R)) (s s' : S) (rs : List R)
      → run_all (xs ++ ys) s ≡ succeeded (s', rs)
      → (mid : S) × (ps : List R) × (qs : List R) × (run_all xs s ≡ succeeded (mid, ps))
        × (run_all ys mid ≡ succeeded (s', qs))
        × (zip_results (xs ++ ys) rs ≡ zip_results xs ps ++ zip_results ys qs)
  unfolding run_all zip_results
  run_all-split [] ys s s' rs h = (s, [], rs, refl, h, refl)
  run_all-split (t ∷ xs) ys s s' rs h =
      let (s₁, r, rest, e, k, l) = run_all-first t (xs ++ ys) s s' rs h in
      let (mid, ps, qs, p, q, z) = run_all-split xs ys s₁ s' rest k in
      (
        mid,
        r ∷ ps,
        qs,
        first-run_all t xs s s₁ mid r ps e p,
        q,
        subst
            (λ x.
              zip_results (t ∷ (xs ++ ys)) x
              ≡ answer t (succeeded r) (zip_results xs ps) ++ zip_results ys qs)
            l
            (ap (answer t (succeeded r)) z
              ∙ answer-append t (succeeded r) (zip_results xs ps) (zip_results ys qs)),
      )

  -- The pending tasks and those to come take the database to `s` and the answers to `ps`.
  abbrev Leads : Writer S R → List (WriteTask S R) → S → List (ℕ × Result R) → Type 0
  Leads w ts s ps =
      (rs : List R) × (run_all (w.pending ++ ts) w.db ≡ succeeded (s, rs))
      × (w.answers ++ zip_results (w.pending ++ ts) rs ≡ ps)

  module _ (sqlite : Sqlite) (begins : (n : ℕ) → sqlite.begin_error n ≡ none)
      (commits : (n : ℕ) → sqlite.commit_error n ≡ none) where
    commit-Leads :
        (xs : List (WriteTask S R)) (w : Writer S R) (mid : S) (ps : List R)
        → run_all xs w.db ≡ succeeded (mid, ps)
        → ((commit_batch sqlite xs w).db ≡ mid)
          × ((commit_batch sqlite xs w).answers ≡ w.answers ++ zip_results xs ps)
    unfolding commit_batch transaction run_all zip_results
    commit-Leads [] w mid ps h =
        (ap (λ p. p.0) (succeeded_injective (w.db, []) (mid, ps) h), sym (append-nil w.answers))
    commit-Leads (t ∷ xs) w mid ps h =
        rw (transaction, begins w.transactions, h, commits w.transactions) (refl, refl)

    flush-Leads :
        (w : Writer S R) (ts : List (WriteTask S R)) (s : S) (ps : List (ℕ × Result R))
        → Leads w ts s ps
        → Leads (flush_pending sqlite w) ts s ps
    unfolding flush_pending
    flush-Leads w ts s ps (rs, h, a) =
        let (mid, as₁, bs₁, p, q, z) = run_all-split w.pending ts w.db s rs h in
        let (db_eq, answers_eq) = commit-Leads w.pending w mid as₁ p in
        (
          bs₁,
          rw db_eq q,
          rw answers_eq (
              append_assoc w.answers (zip_results w.pending as₁) (zip_results ts bs₁)
              ∙ ap (λ l. w.answers ++ l) (sym z)
              ∙ a),
        )

    waiting-Leads :
        (t : WriteTask S R) (w : Writer S R) (ts : List (WriteTask S R)) (s : S)
        (ps : List (ℕ × Result R))
        → Leads w (t ∷ ts) s ps
        → Leads (waiting sqlite t w) ts s ps
    unfolding waiting
    waiting-Leads t w ts s ps l = rw (append_assoc w.pending (t ∷ []) ts) l

    place-Leads :
        (critical full : Bool) (t : WriteTask S R) (w : Writer S R) (ts : List (WriteTask S R))
        (s : S) (ps : List (ℕ × Result R))
        → Leads w (t ∷ ts) s ps
        → Leads (place sqlite critical full t w) ts s ps
    unfolding place flush_pending
    place-Leads true full t w ts s ps l =
        let (rs, h, a) = flush-Leads w (t ∷ ts) s ps l in
        let (mid, as₁, bs₁, p, q, z) =
          run_all-split (t ∷ []) ts (flush_pending sqlite w).db s rs h in
        let (db_eq, answers_eq) = commit-Leads (t ∷ []) (flush_pending sqlite w) mid as₁ p in
        (
          bs₁,
          rw db_eq q,
          rw answers_eq (
              append_assoc (flush_pending sqlite w).answers (zip_results (t ∷ []) as₁)
                (zip_results ts bs₁)
              ∙ ap (λ l. (flush_pending sqlite w).answers ++ l) (sym z)
              ∙ a),
        )
    place-Leads false true t w ts s ps l =
        flush-Leads (waiting sqlite t w) ts s ps (waiting-Leads t w ts s ps l)
    place-Leads false false t w ts s ps l = waiting-Leads t w ts s ps l

    run-Leads :
        (batch_limit : ℕ) (items : List (Item S R)) (w : Writer S R) (s : S)
        (ps : List (ℕ × Result R))
        → stops items ≡ true
        → Leads w (tasks items) s ps
        → Leads (run sqlite batch_limit items w) [] s ps
    unfolding run take_task
    run-Leads batch_limit [] w s ps h l = ground arith
    run-Leads batch_limit (task t ∷ items) w s ps h l =
        run-Leads batch_limit items (take_task sqlite batch_limit t w) s ps h
          (place-Leads t.critical _ t w (tasks items) s ps l)
    run-Leads batch_limit (quiet ∷ items) w s ps h l =
        run-Leads batch_limit items (flush_pending sqlite w) s ps h
          (flush-Leads w (tasks items) s ps l)
    run-Leads batch_limit (stop ∷ items) w s ps h l = flush-Leads w [] s ps l

-- Where SQLite and the operations do not fail, the batches are invisible, whatever the limit, the
-- critical flags and the timing: after the stop the database is what the operations that came
-- before it make of it one after another, and each that its caller has not cancelled is answered with its own
-- result.
pub run_sequential :
    {S R : Type 0} (sqlite : Sqlite) (batch_limit : ℕ) (items : List (Item S R)) (w : Writer S R)
    (s : S) (rs : List R)
    → ((n : ℕ) → sqlite.begin_error n ≡ none)
    → ((n : ℕ) → sqlite.commit_error n ≡ none)
    → stops items ≡ true
    → w.pending ≡ []
    → run_all (tasks items) w.db ≡ succeeded (s, rs)
    → ((run sqlite batch_limit items w).db ≡ s)
      × ((run sqlite batch_limit items w).answers ≡ w.answers ++ zip_results (tasks items) rs)
unfolding run_all zip_results
run_sequential sqlite batch_limit items w s rs begins commits h empty k =
    let (left, done, answers) =
      run-Leads sqlite begins commits batch_limit items w s
        (w.answers ++ zip_results (tasks items) rs) h (rs, rw empty k, rw empty refl) in
    let (_, none_pending) = run-answered sqlite batch_limit items w h empty in
    (
      ap (λ p. p.0) (succeeded_injective (_, []) (s, left) (rw none_pending at done)),
      sym (append-nil _) ∙ (rw none_pending at answers),
    )
