-- ===== src/Jobs/Waits.antt =====
-- The server's waits that the repository answers for an account.
use telegramv.Prelude.{
  ℕ, ◌≤◌, ◌≡◌, refl, ap, Bool, true, false, not, ◌&&◌, List, [], ◌∷◌, Option, none, some, arith,
  All, Bool-cases, inl, inr, if◌then◌else◌, ◌==◌, select, update_where,
}
use telegramv.Core.{JobState}
use telegramv.Storage.{Database, JobRow}
use telegramv.Jobs.{
  account_waiting_until, base_waiting_until, latest_wait, later_wait, sql_eq, is_waiting,
  is_waiting_or_paused, set_state, set_row_state, no_options,
}

-- A wait, if there is one, is over at `t`.
abbrev pub Ends : ℕ → Option ℕ → Type 0
Ends t none = Unit
Ends t (some until) = until ≤ t

-- The account's jobs that wait for the server wait until `t` at most.
abbrev pub WaitsEnd : ℕ → ℕ → List JobRow → Type 0
WaitsEnd t account_id rows =
    All
      (λ row.
        (sql_eq row.account_id account_id && is_waiting row.state) ≡ true
        → Ends t row.waiting_until)
      rows

both_end :
    (row_wait later : Option ℕ) (t : ℕ)
    → Ends t (later_wait row_wait later)
    → Ends t row_wait × Ends t later
unfolding later_wait
both_end none later t h = (tt, h)
both_end (some a) none t h = (h, tt)
both_end (some a) (some b) t h = (omega (arith, h), omega (arith, h))

latest_wait-Ends :
    (test : JobRow → Bool) (t : ℕ) (rows : List JobRow)
    → Ends t (latest_wait test rows)
    → All (λ row. test row ≡ true → Ends t row.waiting_until) rows
unfolding latest_wait
latest_wait-Ends test t [] h = tt
latest_wait-Ends test t (row ∷ rows) h = elim (Bool-cases (test row)) [
  | inl e ↦
      let ends = both_end row.waiting_until (latest_wait test rows) t (rw e at h) in
      (λ k. ends.0, latest_wait-Ends test t rows ends.1)
  | inr e ↦ (λ k. ground arith, latest_wait-Ends test t rows (rw e at h))
]

pub account_waiting_until-WaitsEnd :
    (account_id t : ℕ) (db : Database)
    → Ends t (account_waiting_until account_id db)
    → WaitsEnd t account_id db.jobs
unfolding account_waiting_until
account_waiting_until-WaitsEnd account_id t db h = latest_wait-Ends _ t db.jobs h

add_wait : Bool → Option ℕ → Option ℕ → Option ℕ
add_wait test wait later = if test then later_wait wait later else later

not_added :
    (test : Bool) (wait later rest : Option ℕ)
    → later ≡ rest
    → add_wait (test && false) wait later ≡ rest
unfolding add_wait
not_added true wait later rest h = h
not_added false wait later rest h = h

paused_waits :
    (job_id account_id now : ℕ) (rows : List JobRow)
    → latest_wait
        (λ row. sql_eq row.account_id account_id && is_waiting row.state)
        (update_where (λ row. row.id == job_id) (set_row_state JobState.paused no_options now) rows)
      ≡ latest_wait
          (λ row. sql_eq row.account_id account_id && is_waiting row.state)
          (select (λ row. not (row.id == job_id)) rows)
unfolding latest_wait set_row_state is_waiting add_wait
paused_waits job_id account_id now [] = refl
paused_waits job_id account_id now (row ∷ rows) =
    let later = paused_waits job_id account_id now rows in
    elim (Bool-cases (row.id == job_id)) [
      | inl e ↦ rw e (not_added (sql_eq row.account_id account_id) row.waiting_until _ _ later)
      | inr e ↦ rw e (
          ap (add_wait (sql_eq row.account_id account_id && is_waiting row.state) row.waiting_until)
            later)
    ]

kept_waits :
    (job_id account_id now : ℕ) (rows : List JobRow)
    → All (λ row. row.id ≡ job_id → is_waiting_or_paused row.state ≡ true) rows
    → latest_wait
        (λ row. sql_eq row.account_id account_id && is_waiting_or_paused row.state)
        (update_where (λ row. row.id == job_id) (set_row_state JobState.paused no_options now) rows)
      ≡ latest_wait (λ row. sql_eq row.account_id account_id && is_waiting_or_paused row.state) rows
unfolding latest_wait set_row_state is_waiting_or_paused add_wait
kept_waits job_id account_id now [] h = refl
kept_waits job_id account_id now (row ∷ rows) h =
    let later = kept_waits job_id account_id now rows h.1 in
    elim (Bool-cases (row.id == job_id)) [
      | inl e ↦
          let held : is_waiting_or_paused row.state ≡ true = h.0 (ground arith) in
          rw (e, held)
            (ap (add_wait (sql_eq row.account_id account_id && true) row.waiting_until) later)
      | inr e ↦ rw e (
          ap
            (add_wait (sql_eq row.account_id account_id && is_waiting_or_paused row.state)
              row.waiting_until)
            later)
    ]

-- A job that is paused while it waits for the server keeps its deadline in the row, and the base
-- repository's query still answers it; but the query of V1.2 answers what it would answer if the
-- job were not there.
pub pause-waits :
    (job_id account_id now : ℕ) (db : Database)
    → All (λ row. row.id ≡ job_id → is_waiting_or_paused row.state ≡ true) db.jobs
    → (base_waiting_until account_id (set_state job_id JobState.paused no_options now db)
        ≡ base_waiting_until account_id db)
      × (account_waiting_until account_id (set_state job_id JobState.paused no_options now db)
          ≡ account_waiting_until account_id
              (record db { jobs = select (λ row. not (row.id == job_id)) db.jobs }))
unfolding set_state base_waiting_until account_waiting_until
pause-waits job_id account_id now db h =
    (kept_waits job_id account_id now db.jobs h, paused_waits job_id account_id now db.jobs)
