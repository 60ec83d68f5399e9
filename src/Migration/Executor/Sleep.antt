-- ===== src/Migration/Executor/Sleep.antt =====
-- The polls of `_sleep` in src/tms/migration/executor.py, and their fuel.
use telegramv.Prelude.{
  ℕ, zero, suc, ◌+◌, ◌-◌, ◌≤◌, ◌<◌, min, ◌≡◌, ◌≢◌, refl, Bool, true, false, List, [], ◌∷◌, Option,
  none, some, arith, ltb, leb, Bool-cases, Option-cases, inl, inr, is_some,
}
use telegramv.Jobs.{ItemUpdate}
use telegramv.Migration.Machine.{
  Environment, World, ok, out_of_fuel, Exec, return, Request, ◌>>=◌, ◌>>◌, gets, modify,
}
use telegramv.Migration.Executor.{
  Control, control, handle_request, handle_requests, pass_time, flush_buffer, delayed_flush, wait,
  poll_on, poll, sleep,
}

module _ (env : Environment) where
  requests-now : (w : World) (rs : List Request) → (handle_requests w rs).now ≡ w.now
  unfolding handle_requests handle_request
  requests-now w [] = refl
  requests-now w (Request.stop ∷ rs) = requests-now (record w { stop_event = true }) rs
  requests-now w (Request.pause ∷ rs) = requests-now (record w { pause_event = true }) rs
  requests-now w (Request.resume ∷ rs) = requests-now (record w { pause_event = false }) rs

  flush-now :
      (job_id : ℕ) (us : List ItemUpdate) (w : World) → (flush_buffer env job_id us w).now ≡ w.now
  unfolding flush_buffer
  flush-now job_id [] w = refl
  flush-now job_id (u ∷ us) w = elim (Bool-cases (is_some (env.write_error w.waits))) [
    | inl e ↦ rw e refl
    | inr e ↦ rw e refl
  ]

  delayed-now : (job_id : ℕ) (w : World) → (delayed_flush env job_id w).now ≡ w.now
  unfolding delayed_flush
  delayed-now job_id w = elim (Option-cases w.flush_at) [
    | inl e ↦ rw (delayed_flush, e) refl
    | inr (t, e) ↦ elim (Bool-cases (leb t w.now)) [
      | inl k ↦ rw (delayed_flush, e, k) (flush-now job_id w.result_buffer w)
      | inr k ↦ rw (delayed_flush, e, k) refl
    ]
  ]

  -- A wait takes the time asked for at least.
  wait-now :
      (job_id duration : ℕ) (w : World) → w.now + duration ≤ (wait env job_id duration w).1.now
  unfolding wait modify pass_time
  wait-now job_id duration w = rw (delayed-now job_id (pass_time env duration w)) (omega arith)

  ok_returns : (c : Option Control) → ok c ≢ out_of_fuel
  ok_returns c h = ground arith

  -- What the poll does by the flag and the deadline, if what follows a wait returns.
  poll_on-returns :
      (c : Option Control) (go : Bool) (next : Exec (Option Control)) (w : World)
      → (go ≡ true → (next w).0 ≢ out_of_fuel)
      → (poll_on c go next w).0 ≢ out_of_fuel
  unfolding poll_on return
  poll_on-returns (some c) go next w h = ok_returns (some c)
  poll_on-returns none false next w h = ok_returns none
  poll_on-returns none true next w h = h refl

  poll_returns :
      (fuel job_id deadline : ℕ) (w : World)
      → deadline ≤ w.now + fuel
      → (poll env (suc fuel) job_id deadline w).0 ≢ out_of_fuel
  unfolding poll gets ◌>>=◌ ◌>>◌ wait modify
  poll_returns zero job_id deadline w h =
      poll_on-returns (control w) (ltb w.now deadline) _ w (λ e. ground arith)
  poll_returns (suc fuel) job_id deadline w h =
      poll_on-returns (control w) (ltb w.now deadline) _ w (λ e.
        let early : w.now < deadline = ground arith in
        let later = wait-now job_id (min 250 (deadline - w.now)) w in
        poll_returns fuel job_id deadline (wait env job_id (min 250 (deadline - w.now)) w).1
          (omega arith))

-- A sleep of any length returns, whatever requests arrive, however long its waits take and whatever
-- writes fail: the fuel is enough for its polls.
pub sleep_returns :
    (env : Environment) (job_id duration : ℕ) (w : World)
    → (sleep env job_id duration w).0 ≢ out_of_fuel
unfolding sleep
sleep_returns env job_id duration w =
    poll_returns env duration job_id (w.now + duration) w (omega arith)
