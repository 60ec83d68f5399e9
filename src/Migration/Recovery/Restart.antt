-- ===== src/Migration/Recovery/Restart.antt =====
-- What a restart makes of each job.
use telegramv.Prelude.{
  ℕ, ◌≡◌, refl, sym, ◌∙◌, ap, subst, Bool, true, false, not, ◌&&◌, List, [], ◌∷◌, map, Option, none,
  some, arith, if◌then◌else◌, contains, find, select, sort_by-contains, Bool-cases, Option-cases,
  inl, inr, ◌==◌, or_else,
}
use telegramv.Core.{JobState}
use telegramv.Storage.{Database, JobRow}
use telegramv.Jobs.{
  set_state, set_row_state, get, get_checkpoint, recoverable, is_recoverable, is_terminal, started,
}
use telegramv.Jobs.Rows.{on_row, get_checkpoint-found, get-set_state-same, get-set_state-other}
use telegramv.Migration.Recovery.{
  still_waits, was_active, restart_options, normalize_row, normalize_job, normalize_jobs,
  normalize_after_restart,
}

-- The row of a job after a restart: it is paused where it was running, or waiting with a deadline
-- that is over or missing, and left alone otherwise.
abbrev pub restarted : ℕ → JobRow → JobRow
restarted now row =
    if not (still_waits now row) && was_active row
    then record row {
      state = JobState.paused;
      checkpoint = (restart_options (or_else row.checkpoint [])).checkpoint;
    }
    else row

module _ (now job_id : ℕ) (db : Database) where
  normalize_job-none : get job_id db ≡ none → normalize_job now job_id db ≡ (db, false)
  unfolding normalize_job
  normalize_job-none e = rw (normalize_job, e) refl

  normalize_job-left :
      (row : JobRow)
      → get job_id db ≡ some row
      → (not (still_waits now row) && was_active row) ≡ false
      → normalize_job now job_id db ≡ (db, true)
  unfolding normalize_job normalize_row
  normalize_job-left row e k = rw (normalize_job, e, k) refl

  abbrev paused : JobRow → Database
  paused row = set_state job_id JobState.paused (restart_options (get_checkpoint job_id db)) now db

  normalize_job-paused :
      (row : JobRow)
      → get job_id db ≡ some row
      → (not (still_waits now row) && was_active row) ≡ true
      → normalize_job now job_id db ≡ (paused row, true)
  unfolding normalize_job normalize_row
  normalize_job-paused row e k = rw (normalize_job, e, k) refl

  normalize_job-other :
      (other : ℕ)
      → (job_id == other) ≡ false
      → get other (normalize_job now job_id db).0 ≡ get other db
  normalize_job-other other h = elim (Option-cases (get job_id db)) [
    | inl e ↦ rw (normalize_job-none e) refl
    | inr (row, e) ↦ elim (Bool-cases (not (still_waits now row) && was_active row)) [
      | inl k ↦
          rw (normalize_job-paused row e k)
            (get-set_state-other job_id other JobState.paused _ now db h)
      | inr k ↦ rw (normalize_job-left row e k) refl
    ]
  ]

  normalize_job-same :
      get job_id (normalize_job now job_id db).0 ≡ on_row (restarted now) (get job_id db)
  unfolding set_row_state started restart_options is_terminal
  normalize_job-same = elim (Option-cases (get job_id db)) [
    | inl e ↦ rw (normalize_job-none e) (rw e refl)
    | inr (row, e) ↦ elim (Bool-cases (not (still_waits now row) && was_active row)) [
      | inl k ↦ rw (normalize_job-paused row e k) (
          get-set_state-same job_id JobState.paused _ now db
          ∙ rw (e, k, get_checkpoint-found job_id db row e) refl)
      | inr k ↦ rw (normalize_job-left row e k) (rw (e, k) refl)
    ]
  ]

-- Doing it twice is doing it once.
restarted_idem : (now : ℕ) (row : JobRow) → restarted now (restarted now row) ≡ restarted now row
unfolding still_waits was_active
restarted_idem now row = elim (Bool-cases (not (still_waits now row) && was_active row)) [
  | inl k ↦ rw k refl
  | inr k ↦ rw (k, k) refl
]

again :
    (now : ℕ) (b : Bool) (o r : Option JobRow)
    → r ≡ on_row (restarted now) o
    → (if b then on_row (restarted now) r else r) ≡ on_row (restarted now) o
again now false o r h = h
again now true none r h = rw h refl
again now true (some row) r h = rw h (ap some (restarted_idem now row))

normalize_jobs-row :
    (now : ℕ) (ids : List ℕ) (db : Database) (job_id : ℕ)
    → get job_id (normalize_jobs now ids db).0
      ≡ (if contains ids job_id then on_row (restarted now) (get job_id db) else get job_id db)
unfolding normalize_jobs
normalize_jobs-row now [] db job_id = refl
normalize_jobs-row now (id ∷ ids) db job_id =
    normalize_jobs-row now ids (normalize_job now id db).0 job_id
    ∙ elim (Bool-cases (id == job_id)) [
      | inl e ↦
          let same : id ≡ job_id = ground arith in
          let step : get job_id (normalize_job now id db).0
              ≡ on_row (restarted now) (get job_id db) =
            subst (λ i. get i (normalize_job now id db).0 ≡ on_row (restarted now) (get i db)) same
              (normalize_job-same now id db) in
          rw e (again now (contains ids job_id) (get job_id db) _ step)
      | inr e ↦ rw (e, normalize_job-other now id db job_id e) refl
    ]

listed :
    (job_id : ℕ) (row : JobRow) (rows : List JobRow)
    → find (λ r. r.id == job_id) rows ≡ some row
    → is_recoverable row.state ≡ true
    → contains (map (λ r. r.id) (select (λ r. is_recoverable r.state) rows)) job_id ≡ true
listed job_id row [] h k = ground arith
listed job_id row (r ∷ rows) h k = elim (Bool-cases (r.id == job_id)) [
  | inl e ↦
      let first : some r ≡ some row = rw e at h in
      let open_state : is_recoverable r.state ≡ true =
        subst
          (λ o. elim o as (λ _. Type 0) [ none ↦ Unit | some x ↦ is_recoverable x.state ≡ true ])
          (sym first) k in
      rw (open_state, e) refl
  | inr e ↦
      let later = listed job_id row rows (rw e at h) k in
      elim (Bool-cases (is_recoverable r.state)) [ inl l ↦ rw (l, e) later | inr l ↦ rw l later ]
]

unlisted : (now : ℕ) (row : JobRow) → is_recoverable row.state ≡ false → restarted now row ≡ row
unfolding is_recoverable was_active
unlisted now row h = ground arith

recoverable-contains :
    (job_id : ℕ) (row : JobRow) (db : Database)
    → get job_id db ≡ some row
    → is_recoverable row.state ≡ true
    → contains (recoverable db) job_id ≡ true
unfolding get recoverable
recoverable-contains job_id row db h k =
    sort_by-contains (λ r. r.id) (select (λ r. is_recoverable r.state) db.jobs) job_id
    ∙ listed job_id row db.jobs h k

either_way : (b : Bool) (o : Option JobRow) (x : Option JobRow) → x ≡ o → (if b then x else o) ≡ x
either_way true o x h = refl
either_way false o x h = sym h

-- A restart finds, for each job id, the row that it found before, paused with a note in its
-- checkpoint where the job was running or waited with a deadline that is over or missing, and
-- otherwise as it was.
pub restart-rows :
    (now : ℕ) (db : Database) (job_id : ℕ)
    → get job_id (normalize_after_restart now db).0 ≡ on_row (restarted now) (get job_id db)
unfolding normalize_after_restart
restart-rows now db job_id =
    normalize_jobs-row now (recoverable db) db job_id ∙ elim (Option-cases (get job_id db)) [
      | inl e ↦ rw e (either_way (contains (recoverable db) job_id) none none refl)
      | inr (row, e) ↦ elim (Bool-cases (is_recoverable row.state)) [
        | inl k ↦ rw (recoverable-contains job_id row db e k) refl
        | inr k ↦
            rw e (either_way (contains (recoverable db) job_id) _ _ (ap some (unlisted now row k)))
      ]
    ]
