-- ===== src/Tests/Migration.antt =====
-- The scheduler and the executor at concrete inputs.
use telegramv.Prelude.{◌≢◌, ◌≡◌, ◌↔◌, ◌+◌, ◌≤◌, refl, List, [], ◌∷◌, arith}
use telegramv.Migration.Scheduler.{
  Scheduler, init, apply_server_wait, remaining_delay, reset_target,
}
use telegramv.Migration.Scheduler.Cadence.{
  Call, IsValid, Due, run, init-IsValid, init-run-IsValid, remaining_delay_exact, recovery_sequence,
  reset_target_dropped, stable_intervals,
}
use telegramv.Migration.Machine.{Action}
use telegramv.Migration.Executor.Run
use telegramv.Migration.Executor.Pacing.{IsPaced}
use telegramv.Migration.Executor.Pace.Run.{run-IsPaced}
use telegramv.Migration.Machine.{out_of_fuel}
use telegramv.Migration.Executor.{sleep}
use telegramv.Migration.Executor.Sleep.{sleep_returns}
use telegramv.Tests.Fixtures.{scheduler, calm, world}

abbrev calls : List Call
calls = Call.attempt 0 ∷ Call.server_wait 40 7000 ∷ Call.stable 9000 ∷ Call.reset 4000 ∷ []

init-run-IsValid_example : IsValid (run scheduler calls)
unfolding init
init-run-IsValid_example = init-run-IsValid 5000 scheduler calls refl

remaining_delay_exact_example : (40 + remaining_delay scheduler 40 ≤ 90) ↔ Due scheduler 90
remaining_delay_exact_example = remaining_delay_exact scheduler 40 90 (omega arith)

recovery_sequence_example :
    stable_intervals (apply_server_wait scheduler 40 7000) (8000 ∷ 9000 ∷ 9500 ∷ 9600 ∷ [])
    ≡ 10000 ∷ 8000 ∷ 5000 ∷ 5000 ∷ []
recovery_sequence_example =
    recovery_sequence scheduler 40 7000 8000 9000 9500 9600 (omega arith) (omega arith)
      (omega arith)

abbrev retargeted : Scheduler
unfolding apply_server_wait
retargeted = record (apply_server_wait scheduler 40 7000) { target_interval = 4000 }

reset_target_dropped_example :
    (retargeted.target_interval ≡ 4000)
    × (stable_intervals retargeted (8000 ∷ 9000 ∷ 9500 ∷ 9600 ∷ [])
        ≡ 10000 ∷ 8000 ∷ 5000 ∷ 5000 ∷ [])
unfolding reset_target apply_server_wait
reset_target_dropped_example =
    reset_target_dropped scheduler retargeted 40 7000 4000 8000 9000 9500 9600 refl (omega arith)
      (omega arith) (omega arith)

scheduler-IsValid : IsValid scheduler
unfolding init
scheduler-IsValid = init-IsValid 5000 scheduler refl

run-IsPaced_example : IsPaced 1000000 (Run.run calm Action.invite 50 1 1 world).1.trace
run-IsPaced_example = run-IsPaced calm Action.invite 50 1 1 world scheduler-IsValid refl

sleep_returns_example : (sleep calm 1 5000 world).0 ≢ out_of_fuel
sleep_returns_example = sleep_returns calm 1 5000 world
