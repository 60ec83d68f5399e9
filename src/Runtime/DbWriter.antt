-- ===== src/Runtime/DbWriter.antt =====
-- src/tms/runtime/db_writer.py: the thread that owns the connection, over any database and any
-- results of its operations. The queue is the list of the items in the order of their arrival.
pub mod Batching
pub mod Sequential
use telegramv.Prelude.{
  ℕ, suc, ◌+◌, Bool, true, false, not, List, [], ◌∷◌, ◌++◌, map, Option, none, some, String, ltb,
  if◌then◌else◌, length,
}

-- What a future is set to.
pub data Result (R : Type 0) : Type 0 where
  succeeded : R → Result R
  raised : String → Result R

pub record WriteTask (S R : Type 0) : Type 0 where
  pub id : ℕ
  pub operation : S → Result (S × R)
  pub critical : Bool
  -- Its future is done when its batch ends: the caller has cancelled it.
  pub done : Bool

-- What the queue gives the thread: a task, nothing for as long as the flush interval, or the stop.
pub data Item (S R : Type 0) : Type 0 where
  task : WriteTask S R → Item S R
  quiet : Item S R
  stop : Item S R

-- SQLite's own failures, by the number of the transaction.
pub record Sqlite : Type 0 where
  pub begin_error : ℕ → Option String
  pub commit_error : ℕ → Option String

pub record Writer (S R : Type 0) : Type 0 where
  pub db : S
  pub pending : List (WriteTask S R)
  pub answers : List (ℕ × Result R)
  pub transactions : ℕ

module _ {S R : Type 0} where
  with_result : R → Result (S × List R) → Result (S × List R)
  with_result r (succeeded (s, rs)) = succeeded (s, r ∷ rs)
  with_result r (raised error) = raised error

  -- The operations in their order, up to the first that raises.
  unfoldable pub run_all : List (WriteTask S R) → S → Result (S × List R)
  unfolding with_result
  run_all [] s = succeeded (s, [])
  run_all (t ∷ ts) s = elim (t.operation s) [
    | succeeded (s', r) ↦ with_result r (run_all ts s')
    | raised error ↦ raised error
  ]

  -- A future that is done is not set.
  unfoldable pub answer : WriteTask S R → Result R → List (ℕ × Result R) → List (ℕ × Result R)
  answer t r others = if t.done then others else (t.id, r) ∷ others

  unfoldable pub zip_results : List (WriteTask S R) → List R → List (ℕ × Result R)
  unfolding answer
  zip_results [] rs = []
  zip_results (t ∷ ts) [] = []
  zip_results (t ∷ ts) (r ∷ rs) = answer t (succeeded r) (zip_results ts rs)

  -- `_fail_tasks`
  unfoldable pub fail_tasks : String → List (WriteTask S R) → List (ℕ × Result R)
  unfolding answer
  fail_tasks error [] = []
  fail_tasks error (t ∷ ts) = answer t (raised error) (fail_tasks error ts)

  -- What a transaction makes of the database and the futures.
  unfoldable pub transaction :
      Option String → Option String → List (WriteTask S R) → S → S × List (ℕ × Result R)
  unfolding run_all zip_results fail_tasks
  transaction (some error) committed ts s = (s, fail_tasks error ts)
  transaction none committed ts s = elim (run_all ts s) [
    | raised error ↦ (s, fail_tasks error ts)
    | succeeded (s', rs) ↦ elim committed [
      | some error ↦ (s, fail_tasks error ts)
      | none ↦ (s', zip_results ts rs)
    ]
  ]

  module _ (sqlite : Sqlite) where
    -- `_commit_batch`
    unfoldable pub commit_batch : List (WriteTask S R) → Writer S R → Writer S R
    unfolding transaction
    commit_batch [] w = w
    commit_batch (t ∷ ts) w =
        let n = w.transactions in
        let done = transaction (sqlite.begin_error n) (sqlite.commit_error n) (t ∷ ts) w.db in
        record w { db = done.0; answers = w.answers ++ done.1; transactions = suc n }

    -- `self._commit_batch(conn, pending); pending.clear()`
    unfoldable pub flush_pending : Writer S R → Writer S R
    unfolding commit_batch
    flush_pending w = record (commit_batch w.pending w) { pending = [] }

    waiting : WriteTask S R → Writer S R → Writer S R
    waiting t w = record w { pending = w.pending ++ t ∷ [] }

    -- By whether the task is critical, and whether the batch is full with it.
    place : Bool → Bool → WriteTask S R → Writer S R → Writer S R
    unfolding waiting flush_pending
    place true full t w = commit_batch (t ∷ []) (flush_pending w)
    place false true t w = flush_pending (waiting t w)
    place false false t w = waiting t w

    take_task : ℕ → WriteTask S R → Writer S R → Writer S R
    unfolding place
    take_task batch_limit t w =
        place t.critical (not (ltb (length (w.pending ++ t ∷ [])) batch_limit)) t w

    -- `_run`; what is pending at its end is committed by the `finally`.
    unfoldable pub run : ℕ → List (Item S R) → Writer S R → Writer S R
    unfolding take_task flush_pending
    run batch_limit [] w = w
    run batch_limit (task t ∷ items) w = run batch_limit items (take_task batch_limit t w)
    run batch_limit (quiet ∷ items) w = run batch_limit items (flush_pending w)
    run batch_limit (stop ∷ items) w = flush_pending w
