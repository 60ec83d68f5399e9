-- ===== src/Migration/Scheduler.antt =====
-- src/tms/migration/scheduler.py. The clock's reading is the argument `now`; times are
-- milliseconds, and a difference of times stops at 0 as `max(0.0, …)` does in the source.
pub mod Cadence
use telegramv.Prelude.{
  ℕ, ◌+◌, ◌-◌, max, List, [], ◌∷◌, Option, none, some, Bool, ◌&&◌, leb, ltb, if◌then◌else◌,
}
use telegramv.Core.{min_invite_interval, max_invite_interval, recovery_invite_interval}

pub record Scheduler : Type 0 where
  pub interval : ℕ
  pub target_interval : ℕ
  pub last_attempt : Option ℕ
  pub server_wait_until : ℕ
  pub recovery_steps : List ℕ

-- The guard of the constructor and of `reset_target`.
abbrev pub interval_allowed : ℕ → Bool
interval_allowed s = leb min_invite_interval s && leb s max_invite_interval

-- `none` is the ValueError.
unfoldable pub init : ℕ → Option Scheduler
init interval_seconds =
    if interval_allowed interval_seconds
    then some (record {
      interval = interval_seconds;
      target_interval = interval_seconds;
      last_attempt = none;
      server_wait_until = 0;
      recovery_steps = [];
    })
    else none

unfoldable pub apply_server_wait : Scheduler → ℕ → ℕ → Scheduler
apply_server_wait s now seconds = record s {
  server_wait_until = max s.server_wait_until (now + seconds);
  recovery_steps = recovery_invite_interval ∷ 8000 ∷ s.target_interval ∷ [];
}

unfoldable pub server_wait_remaining : Scheduler → ℕ → ℕ
server_wait_remaining s now = s.server_wait_until - now

local_next : Option ℕ → ℕ → ℕ → ℕ
local_next none interval now = now
local_next (some last) interval now = last + interval

unfoldable pub remaining_delay : Scheduler → ℕ → ℕ
unfolding local_next
remaining_delay s now = max (local_next s.last_attempt s.interval now) s.server_wait_until - now

unfoldable pub mark_attempt : Scheduler → ℕ → Scheduler
mark_attempt s now = record s { last_attempt = some now }

take_step : Scheduler → List ℕ → Scheduler
take_step s [] = s
take_step s (step ∷ rest) = record s { interval = step; recovery_steps = rest }

unfoldable pub mark_stable_candidate : Scheduler → ℕ → Scheduler
unfolding take_step server_wait_remaining
mark_stable_candidate s now =
    if ltb 0 (server_wait_remaining s now) then s else take_step s s.recovery_steps

retarget : Scheduler → ℕ → List ℕ → Scheduler
retarget s seconds [] = record s { target_interval = seconds; interval = seconds }
retarget s seconds (step ∷ rest) = record s { target_interval = seconds }

-- `none` is the ValueError.
unfoldable pub reset_target : Scheduler → ℕ → Option Scheduler
unfolding retarget
reset_target s seconds =
    if interval_allowed seconds then some (retarget s seconds s.recovery_steps) else none
