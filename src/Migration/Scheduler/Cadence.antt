-- ===== src/Migration/Scheduler/Cadence.antt =====
-- The pacing that the scheduler promises: intervals within the limits, and no attempt before the
-- local cadence and the server's deadline allow it.
use telegramv.Prelude.{
  ℕ, ◌+◌, ◌-◌, ◌≤◌, max, ◌≡◌, refl, ◌↔◌, List, [], ◌∷◌, Option, none, some, arith, All, Bool-cases,
  inl, inr, ltb,
}
use telegramv.Core.{min_invite_interval, max_invite_interval}
use telegramv.Migration.Scheduler.{
  Scheduler, init, apply_server_wait, server_wait_remaining, remaining_delay, mark_attempt,
  mark_stable_candidate, reset_target, take_step, retarget, interval_allowed, local_next,
}

abbrev pub InRange : ℕ → Type 0
InRange t = (min_invite_interval ≤ t) × (t ≤ max_invite_interval)

pub record IsValid (s : Scheduler) : Type 0 where
  pub current : InRange s.interval
  pub target : InRange s.target_interval
  pub steps : All InRange s.recovery_steps

-- The calls that an executor makes, each at a reading of the clock.
pub data Call : Type 0 where
  server_wait : ℕ → ℕ → Call
  attempt : ℕ → Call
  stable : ℕ → Call
  reset : ℕ → Call

or_same : Scheduler → Option Scheduler → Scheduler
or_same s none = s
or_same s (some t) = t

-- A call that raises leaves the scheduler as it was.
pub step : Scheduler → Call → Scheduler
unfolding or_same
step s (server_wait now seconds) = apply_server_wait s now seconds
step s (attempt now) = mark_attempt s now
step s (stable now) = mark_stable_candidate s now
step s (reset seconds) = or_same s (reset_target s seconds)

pub run : Scheduler → List Call → Scheduler
run s [] = s
run s (c ∷ cs) = run (step s c) cs

take_step-IsValid :
    (s : Scheduler) (l : List ℕ) → IsValid s → All InRange l → IsValid (take_step s l)
unfolding take_step
take_step-IsValid s [] v a = v
take_step-IsValid s (x ∷ l) v a = record { current = a.0; target = v.target; steps = a.1 }

retarget-IsValid :
    (s : Scheduler) (seconds : ℕ) (l : List ℕ)
    → IsValid s
    → InRange seconds
    → IsValid (retarget s seconds l)
unfolding retarget
retarget-IsValid s seconds [] v r = record { current = r; target = r; steps = v.steps }
retarget-IsValid s seconds (x ∷ l) v r = record { current = v.current; target = r; steps = v.steps }

reset-IsValid : (s : Scheduler) (seconds : ℕ) → IsValid s → IsValid (step s (reset seconds))
unfolding step reset_target
reset-IsValid s seconds v = elim (Bool-cases (interval_allowed seconds)) [
  | inl e ↦ rw (e, or_same) (retarget-IsValid s seconds s.recovery_steps v (ground arith))
  | inr e ↦ rw (e, or_same) v
]

pub stable-IsValid : (s : Scheduler) (now : ℕ) → IsValid s → IsValid (mark_stable_candidate s now)
unfolding mark_stable_candidate server_wait_remaining
stable-IsValid s now v = elim (Bool-cases (ltb 0 (s.server_wait_until - now))) [
  | inl e ↦ rw e v
  | inr e ↦ rw e (take_step-IsValid s s.recovery_steps v v.steps)
]

pub wait-IsValid :
    (s : Scheduler) (now seconds : ℕ) → IsValid s → IsValid (apply_server_wait s now seconds)
unfolding apply_server_wait
wait-IsValid s now seconds v = record {
  current = v.current;
  target = v.target;
  steps = (omega arith, (omega arith, (v.target, tt)));
}

pub attempt-IsValid : (s : Scheduler) (now : ℕ) → IsValid s → IsValid (mark_attempt s now)
unfolding mark_attempt
attempt-IsValid s now v = record { current = v.current; target = v.target; steps = v.steps }

step-IsValid : (s : Scheduler) (c : Call) → IsValid s → IsValid (step s c)
unfolding step
step-IsValid s (server_wait now seconds) v = wait-IsValid s now seconds v
step-IsValid s (attempt now) v = attempt-IsValid s now v
step-IsValid s (stable now) v = stable-IsValid s now v
step-IsValid s (reset seconds) v = reset-IsValid s seconds v

run-IsValid : (s : Scheduler) (cs : List Call) → IsValid s → IsValid (run s cs)
unfolding run
run-IsValid s [] v = v
run-IsValid s (c ∷ cs) v = run-IsValid (step s c) cs (step-IsValid s c v)

pub init-IsValid : (t : ℕ) (s : Scheduler) → init t ≡ some s → IsValid s
unfolding init
init-IsValid t s h = ground arith

-- Whatever the executor calls on a scheduler that was constructed, and in whatever order, its
-- interval, its target and every recovery step stay between 3 and 10 seconds.
pub init-run-IsValid :
    (t : ℕ) (s : Scheduler) (cs : List Call) → init t ≡ some s → IsValid (run s cs)
init-run-IsValid t s cs h = run-IsValid s cs (init-IsValid t s h)

-- When an attempt is due by the two rules: the server's deadline and the local cadence.
abbrev pub Paced : Option ℕ → ℕ → ℕ → Type 0
Paced none interval t = Unit
Paced (some last) interval t = last + interval ≤ t

abbrev pub Due : Scheduler → ℕ → Type 0
Due s t = (s.server_wait_until ≤ t) × Paced s.last_attempt s.interval t

due_at :
    (last : Option ℕ) (interval until now t : ℕ)
    → now ≤ t
    → (now + (max (local_next last interval now) until - now) ≤ t)
      ↔ ((until ≤ t) × Paced last interval t)
unfolding local_next
due_at none interval until now t h = (λ le. (omega arith, tt), λ due. omega (arith, due.0))
due_at (some last) interval until now t h =
    (λ le. (omega arith, omega arith), λ due. omega (arith, due.0, due.1))

-- The delay is exact: from `now` on, a later time has waited `remaining_delay` exactly when it is
-- past the server's deadline and one interval after the last attempt.
pub remaining_delay_exact :
    (s : Scheduler) (now t : ℕ) → now ≤ t → (now + remaining_delay s now ≤ t) ↔ Due s t
unfolding remaining_delay
remaining_delay_exact s now t h = due_at s.last_attempt s.interval s.server_wait_until now t h

-- The intervals after each of the next stable candidates.
pub stable_intervals : Scheduler → List ℕ → List ℕ
stable_intervals s [] = []
stable_intervals s (now ∷ later) =
    let s' = mark_stable_candidate s now in s'.interval ∷ stable_intervals s' later

stable_step :
    (s : Scheduler) (now x : ℕ) (l : List ℕ)
    → s.server_wait_until ≤ now
    → s.recovery_steps ≡ x ∷ l
    → mark_stable_candidate s now ≡ record s { interval = x; recovery_steps = l }
unfolding mark_stable_candidate server_wait_remaining take_step
stable_step s now x l h e = ground arith

stable_done : (s : Scheduler) (now : ℕ) → s.recovery_steps ≡ [] → mark_stable_candidate s now ≡ s
unfolding mark_stable_candidate take_step
stable_done s now e = ground arith

three_steps :
    (s : Scheduler) (x y z t₁ t₂ t₃ t₄ : ℕ)
    → s.recovery_steps ≡ x ∷ y ∷ z ∷ []
    → s.server_wait_until ≤ t₁
    → s.server_wait_until ≤ t₂
    → s.server_wait_until ≤ t₃
    → stable_intervals s (t₁ ∷ t₂ ∷ t₃ ∷ t₄ ∷ []) ≡ x ∷ y ∷ z ∷ z ∷ []
unfolding stable_intervals
three_steps s x y z t₁ t₂ t₃ t₄ e h₁ h₂ h₃ = rw (stable_step s t₁ x (y ∷ z ∷ []) h₁ e) (
    rw (stable_step (record s { interval = x; recovery_steps = y ∷ z ∷ [] }) t₂ y (z ∷ []) h₂ refl)
      (rw (stable_step (record s { interval = y; recovery_steps = z ∷ [] }) t₃ z [] h₃ refl)
        (rw (stable_done (record s { interval = z; recovery_steps = [] }) t₄ refl) refl)))

-- After a server wait that has passed, the stable candidates take the interval to 10 seconds, to
-- 8 seconds and back to the target, where it stays.
pub recovery_sequence :
    (s : Scheduler) (now seconds t₁ t₂ t₃ t₄ : ℕ)
    → max s.server_wait_until (now + seconds) ≤ t₁
    → t₁ ≤ t₂
    → t₂ ≤ t₃
    → stable_intervals (apply_server_wait s now seconds) (t₁ ∷ t₂ ∷ t₃ ∷ t₄ ∷ [])
      ≡ 10000 ∷ 8000 ∷ s.target_interval ∷ s.target_interval ∷ []
unfolding apply_server_wait
recovery_sequence s now seconds t₁ t₂ t₃ t₄ h₁ h₂ h₃ =
    three_steps _ _ _ _ t₁ t₂ t₃ t₄ refl h₁ (omega arith) (omega arith)

-- A target that is set while the scheduler recovers is dropped: the recovery ends at the old one.
pub reset_target_dropped :
    (s u : Scheduler) (now seconds target t₁ t₂ t₃ t₄ : ℕ)
    → reset_target (apply_server_wait s now seconds) target ≡ some u
    → max s.server_wait_until (now + seconds) ≤ t₁
    → t₁ ≤ t₂
    → t₂ ≤ t₃
    → (u.target_interval ≡ target)
      × (stable_intervals u (t₁ ∷ t₂ ∷ t₃ ∷ t₄ ∷ [])
          ≡ 10000 ∷ 8000 ∷ s.target_interval ∷ s.target_interval ∷ [])
unfolding apply_server_wait reset_target retarget
reset_target_dropped s u now seconds target t₁ t₂ t₃ t₄ e h₁ h₂ h₃ = (
  ground arith,
  three_steps u 10000 8000 s.target_interval t₁ t₂ t₃ t₄ (ground arith) (ground arith)
      (ground arith) (ground arith),
)
