-- ===== src/Jobs/Rows.antt =====
-- The row of a job after the state of a job was set.
use telegramv.Prelude.{
  ℕ, ◌≡◌, refl, false, List, [], ◌∷◌, Option, none, some, arith, ◌==◌, find, update_where, or_else,
  Bool-cases, inl, inr,
}
use telegramv.Core.{JobState}
use telegramv.Storage.{Database, JobRow}
use telegramv.Jobs.{StateOptions, get, get_checkpoint, row_checkpoint, set_row_state, set_state}

abbrev pub on_row : (JobRow → JobRow) → Option JobRow → Option JobRow
on_row f none = none
on_row f (some row) = some (f row)

module _ (f : JobRow → JobRow) (same : (r : JobRow) → (f r).id ≡ r.id) where
  found_same :
      (job_id : ℕ) (rows : List JobRow)
      → find (λ r. r.id == job_id) (update_where (λ r. r.id == job_id) f rows)
        ≡ on_row f (find (λ r. r.id == job_id) rows)
  found_same job_id [] = refl
  found_same job_id (row ∷ rows) = elim (Bool-cases (row.id == job_id)) [
    | inl e ↦ rw (e, same row, e) refl
    | inr e ↦ rw (e, e) (found_same job_id rows)
  ]

  found_other :
      (job_id other : ℕ) (rows : List JobRow)
      → (job_id == other) ≡ false
      → find (λ r. r.id == other) (update_where (λ r. r.id == job_id) f rows)
        ≡ find (λ r. r.id == other) rows
  found_other job_id other [] h = refl
  found_other job_id other (row ∷ rows) h = elim (Bool-cases (row.id == job_id)) [
    | inl e ↦
        let apart : (row.id == other) ≡ false = ground arith in
        rw (e, same row, apart) (found_other job_id other rows h)
    | inr e ↦ elim (Bool-cases (row.id == other)) [
      | inl k ↦ rw (e, k) refl
      | inr k ↦ rw (e, k) (found_other job_id other rows h)
    ]
  ]

pub get-set_state-same :
    (job_id : ℕ) (state : JobState) (options : StateOptions) (now : ℕ) (db : Database)
    → get job_id (set_state job_id state options now db)
      ≡ on_row (set_row_state state options now) (get job_id db)
unfolding get set_state set_row_state
get-set_state-same job_id state options now db =
    found_same (set_row_state state options now) (λ r. refl) job_id db.jobs

pub get-set_state-other :
    (job_id other : ℕ) (state : JobState) (options : StateOptions) (now : ℕ) (db : Database)
    → (job_id == other) ≡ false
    → get other (set_state job_id state options now db) ≡ get other db
unfolding get set_state set_row_state
get-set_state-other job_id other state options now db h =
    found_other (set_row_state state options now) (λ r. refl) job_id other db.jobs h

pub get_checkpoint-found :
    (job_id : ℕ) (db : Database) (row : JobRow)
    → get job_id db ≡ some row
    → get_checkpoint job_id db ≡ or_else row.checkpoint []
unfolding get_checkpoint row_checkpoint
get_checkpoint-found job_id db row e = rw (get_checkpoint, e) refl
