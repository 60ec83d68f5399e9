-- ===== src/Tests/Writer.antt =====
-- The writer's thread with three writes of a number and a stop.
use telegramv.Prelude.{ℕ, ◌+◌, ◌≡◌, refl, Bool, true, false, List, [], ◌∷◌, ◌++◌, none}
use telegramv.Runtime.DbWriter.{
  succeeded, raised, WriteTask, Item, task, quiet, stop, Sqlite, Writer, run_all, zip_results, run,
}
use telegramv.Runtime.DbWriter.Batching.{answered, ids, tasks, run-answered}
use telegramv.Runtime.DbWriter.Sequential.{run_sequential}

abbrev add : ℕ → Bool → WriteTask ℕ ℕ
add n critical = record {
  id = n;
  operation = λ s. succeeded (s + n, s);
  critical = critical;
  done = false;
}

abbrev failing : ℕ → WriteTask ℕ ℕ
failing n = record { id = n; operation = λ s. raised "constraint"; critical = false; done = false }

abbrev sqlite : Sqlite
sqlite = record { begin_error = λ _. none; commit_error = λ _. none }

abbrev writer : Writer ℕ ℕ
writer = record { db = 10; pending = []; answers = []; transactions = 0 }

abbrev mixed : List (Item ℕ ℕ)
mixed =
    task (add 1 false)
    ∷ task (failing 2)
    ∷ quiet
    ∷ task (record (add 5 false) { done = true })
    ∷ task (add 3 true)
    ∷ stop
    ∷ task (add 4 false)
    ∷ []

abbrev sound : List (Item ℕ ℕ)
sound = task (add 1 false) ∷ task (add 2 false) ∷ task (add 3 true) ∷ stop ∷ []

run-answered_example :
    (answered (run sqlite 250 mixed writer) ≡ answered writer ++ ids (tasks mixed))
    × ((run sqlite 250 mixed writer).pending ≡ [])
run-answered_example = run-answered sqlite 250 mixed writer refl refl

run_sequential_example :
    ((run sqlite 2 sound writer).db ≡ 16)
    × ((run sqlite 2 sound writer).answers
        ≡ writer.answers ++ zip_results (tasks sound) (10 ∷ 11 ∷ 13 ∷ []))
unfolding run_all
run_sequential_example =
    run_sequential sqlite 2 sound writer 16 (10 ∷ 11 ∷ 13 ∷ []) (λ n. refl) (λ n. refl) refl refl
      refl
