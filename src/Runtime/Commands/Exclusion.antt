-- ===== src/Runtime/Commands/Exclusion.antt =====
-- The executors of a session over sequences of commands (runtime/command_handlers.py).
use telegramv.Prelude.{
  ℕ, ◌≡◌, refl, sym, subst, Bool, false, List, [], ◌∷◌, arith, Bool-cases, inl, inr, ◌==◌, select,
}
use telegramv.Storage.{Database}
use telegramv.Runtime.Commands.{
  Session, Executor, accepted, start_migration, resume_migration, is_running, finished,
}
use telegramv.Runtime.Commands.Launch.{Launched, resume-Launched, start-Launched}

-- The executors are of different jobs.
abbrev pub Exclusive : List Executor → Type 0
Exclusive [] = Unit
Exclusive (e ∷ es) = (is_running e.job_id es ≡ false) × Exclusive es

-- What happens to a session: an accepted command, the end of a run, or anything that leaves the
-- executors alone, such as a write or the passing of time.
pub data Step : Session → Session → Type 0 where
  start :
      (s s' : Session) (job_id account_id interval : ℕ)
      → start_migration job_id account_id interval s ≡ accepted s'
      → Step s s'
  resume :
      (s s' : Session) (job_id interval : ℕ)
      → resume_migration job_id interval s ≡ accepted s'
      → Step s s'
  finish : (s : Session) (job_id : ℕ) → Step s (finished job_id s)
  elsewhere : (s : Session) (db : Database) (now : ℕ) → Step s (record s { db = db; now = now })

pub data Steps : Session → Session → Type 0 where
  here : (s : Session) → Steps s s
  next : (s s' s'' : Session) → Steps s s' → Step s' s'' → Steps s s''

not_running-select :
    (job_id : ℕ) (p : Executor → Bool) (es : List Executor)
    → is_running job_id es ≡ false
    → is_running job_id (select p es) ≡ false
not_running-select job_id p [] h = refl
not_running-select job_id p (e ∷ es) h = elim (Bool-cases (e.job_id == job_id)) [
  | inl k ↦ ground arith
  | inr k ↦
      let rest : is_running job_id (select p es) ≡ false =
        not_running-select job_id p es (rw k at h) in
      ground arith
]

select-Exclusive :
    (p : Executor → Bool) (es : List Executor) → Exclusive es → Exclusive (select p es)
select-Exclusive p [] x = tt
select-Exclusive p (e ∷ es) x = elim (Bool-cases (p e)) [
  | inl k ↦ rw k (not_running-select e.job_id p es x.0, select-Exclusive p es x.1)
  | inr k ↦ rw k (select-Exclusive p es x.1)
]

Launched-Exclusive :
    (job_id account_id interval : ℕ) (s s' : Session)
    → is_running job_id s.executors ≡ false
    → Launched job_id account_id interval s s'
    → Exclusive s.executors
    → Exclusive s'.executors
Launched-Exclusive job_id account_id interval s s' idle l x =
    subst Exclusive (sym l.added)
      (subst (λ j. is_running j s.executors ≡ false) (sym l.job) idle, x)

step-Exclusive : (s s' : Session) → Step s s' → Exclusive s.executors → Exclusive s'.executors
unfolding finished
step-Exclusive s s' (start _ _ job_id account_id interval h) x =
    let (idle, _, _, _, _, _, _, launched) = start-Launched job_id account_id interval s s' h in
    Launched-Exclusive job_id account_id interval s s' idle launched x
step-Exclusive s s' (resume _ _ job_id interval h) x =
    let (idle, _, _, _, _, account_id, _, _, launched) = resume-Launched job_id interval s s' h in
    Launched-Exclusive job_id account_id interval s s' idle launched x
step-Exclusive s s' (finish _ job_id) x = select-Exclusive _ s.executors x
step-Exclusive s s' (elsewhere _ db now) x = x

-- From a session without executors, no sequence of commands, ends of runs and other steps leads to
-- two executors of one job.
pub Steps-Exclusive : (s s' : Session) → s.executors ≡ [] → Steps s s' → Exclusive s'.executors
Steps-Exclusive s s' e (here _) = rw e tt
Steps-Exclusive s s' e (next _ mid _ before last) =
    step-Exclusive mid s' last (Steps-Exclusive s mid e before)
