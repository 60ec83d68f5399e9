-- ===== src/Migration/Executor/Pace.antt =====
-- The actions of an attempt keep the pace of the RPCs.
pub mod Run
use telegramv.Prelude.{
  ℕ, zero, suc, ◌+◌, ◌-◌, ◌*◌, ◌≤◌, max, min, ◌≡◌, refl, Bool, true, false, List, [], ◌∷◌, Option,
  none, some, arith, String, ltb, leb, if◌then◌else◌, is_some, Bool-cases, inl, inr, or_else, subst,
  ap, sym, ◌∙◌,
}
use telegramv.Core.{
  rpc_watchdog, DomainError, InviteResultCode, JobState, AccountState, MigrationItemState,
}
use telegramv.Storage.{Database}
use telegramv.Jobs.{ItemUpdate, StateOptions}
use telegramv.Migration.Scheduler.{
  Scheduler, apply_server_wait, mark_attempt, mark_stable_candidate, remaining_delay,
}
use telegramv.Migration.Scheduler.Cadence.{Due, remaining_delay_exact}
use telegramv.Migration.CandidateBuffer.{BufferedCandidate, CandidateBuffer}
use telegramv.Migration.Machine.{
  Action, Effect, Environment, World, Outcome, ok, Exec, return, raise, starve, ◌>>=◌, ◌>>◌, gets,
  modify, emit, catch, finally, continue,
}
use telegramv.Migration.Machine.Keeps.{
  Keeps, keeps_rules, Keeps-gets, Keeps-modify, Keeps-catch, Keeps-finally, Keeps-bind, Keeps-seq,
  bind-at, Returns, Returns-return, Returns-bind, Returns-seq, Keeps-return, Keeps-if,
}
use telegramv.Migration.Executor.{
  Control, control, wait, write, set_account, set_job, flush, schedule_flush, poll_on, poll, sleep,
  scheduled_sleep, handle_control, retry_checkpoint, utc,
}
use telegramv.Migration.Executor.Run.{
  after_sleep, respond, round, attempt_loop, attempt, v12_attempt, run_loop, complete, run_body,
  fail_job, clean_up, prepare, run,
}
use telegramv.Migration.Executor.Quiet
use telegramv.Telegram.ErrorMapper.{RpcException, map_error}
use telegramv.Migration.Executor.Quiet.{IsQuiet}
use telegramv.Migration.Executor.Pacing.{
  Inv, IsPaced, Inv-quiet, Inv-announce, Inv-apply_server_wait, Inv-rpc, Inv-stable,
}
use telegramv.Migration.Executor.Attempt.{
  Next, send, rpc, mark_retry_of, wait_until, flood_wait, stop_rate_limited, pause_candidate,
  retry_transient, on_error, on_success, mark_stable, failed_update, transient_delay, retry_after,
  settle, on_code, retry_transient,
}

module _ (env : Environment) where
  poll_on-due :
      (c : Option Control) (go : Bool) (next : Exec (Option Control)) (w : World) (deadline : ℕ)
      → (go ≡ false → deadline ≤ w.now)
      → ((next w).0 ≡ ok none → deadline ≤ (next w).1.now)
      → (poll_on c go next w).0 ≡ ok none
      → deadline ≤ (poll_on c go next w).1.now
  unfolding poll_on return
  poll_on-due (some c) go next w deadline h k e = absurd (cc)
  poll_on-due none false next w deadline h k e = h refl
  poll_on-due none true next w deadline h k e = k e

  -- A sleep that no request has cut short ends at its deadline or later.
  poll-due :
      (fuel job_id deadline : ℕ) (w : World)
      → (poll env fuel job_id deadline w).0 ≡ ok none
      → deadline ≤ (poll env fuel job_id deadline w).1.now
  unfolding poll ◌>>=◌ ◌>>◌ gets starve wait modify
  poll-due zero job_id deadline w e = absurd (cc)
  poll-due (suc fuel) job_id deadline w e =
      poll_on-due (control w) (ltb w.now deadline) _ w deadline (λ t. ground arith)
        (poll-due fuel job_id deadline _) e

  scheduled_sleep-Due :
      (job_id : ℕ) (w : World)
      → (scheduled_sleep env job_id w).0 ≡ ok none
      → Due w.scheduler (scheduled_sleep env job_id w).1.now
  unfolding scheduled_sleep sleep
  scheduled_sleep-Due job_id w e =
      let deadline = w.now + remaining_delay w.scheduler w.now in
      let late : deadline ≤ (scheduled_sleep env job_id w).1.now =
        poll-due (suc (remaining_delay w.scheduler w.now)) job_id deadline w e in
      (remaining_delay_exact w.scheduler w.now (scheduled_sleep env job_id w).1.now (omega arith)).0
        late

  abbrev Pace : World → Type 0
  Pace w = Inv env.utc_base w.scheduler w.trace

  abbrev quiet :
      (s : Scheduler) (e : Effect) (trace : List Effect)
      → IsQuiet e
      → Inv env.utc_base s trace
      → Inv env.utc_base s (e ∷ trace)
  quiet = Inv-quiet env.utc_base

  wait-Pace : (job_id duration : ℕ) → Keeps Pace (wait env job_id duration)
  wait-Pace = Quiet.wait-On (Inv env.utc_base) quiet env

  write-Pace :
      (job_id : ℕ) (transaction : ℕ → Database → Database)
      → Keeps Pace (write env job_id transaction)
  write-Pace = Quiet.write-On (Inv env.utc_base) quiet env

  emit-Pace : (e : Effect) → IsQuiet e → Keeps Pace (emit e)
  emit-Pace = Quiet.emit-On (Inv env.utc_base) quiet env

  set_account-Pace :
      (job_id account_id : ℕ) (state : AccountState) (error : Option String)
      → Keeps Pace (set_account env job_id account_id state error)
  set_account-Pace = Quiet.set_account-On (Inv env.utc_base) quiet env

  set_job-Pace :
      (job_id : ℕ) (state : JobState) (options : StateOptions)
      → options.waiting_until ≡ none
      → Keeps Pace (set_job env job_id state options)
  set_job-Pace job_id state options e =
      Quiet.set_job-On (Inv env.utc_base) quiet env job_id state options (rw e tt)

  flush-Pace : (job_id : ℕ) (force : Bool) → Keeps Pace (flush env job_id force)
  flush-Pace = Quiet.flush-On (Inv env.utc_base) quiet env

  schedule_flush-Pace : Keeps Pace (schedule_flush env)
  schedule_flush-Pace = Quiet.schedule_flush-On (Inv env.utc_base) quiet env

  sleep-Pace : (job_id duration : ℕ) → Keeps Pace (sleep env job_id duration)
  sleep-Pace = Quiet.sleep-On (Inv env.utc_base) quiet env

  scheduled_sleep-Pace : (job_id : ℕ) → Keeps Pace (scheduled_sleep env job_id)
  scheduled_sleep-Pace = Quiet.scheduled_sleep-On (Inv env.utc_base) quiet env

  handle_control-Pace :
      (c : Option Control) (job_id account_id : ℕ)
      → Keeps Pace (handle_control env c job_id account_id)
  handle_control-Pace = Quiet.handle_control-On (Inv env.utc_base) quiet env

  mark_stable-Pace : Keeps Pace mark_stable
  unfolding mark_stable
  mark_stable-Pace = Keeps-modify _ (λ w h. Inv-stable env.utc_base w.scheduler w.now w.trace h)

  on_success-Pace : (c : BufferedCandidate) (attempts : ℕ) → Keeps Pace (on_success c attempts)
  unfolding on_success
  on_success-Pace c attempts = search (keeps_rules, mark_stable-Pace)

  mark_retry_of-Pace :
      (job_id : ℕ) (c : BufferedCandidate) (attempts : ℕ) (error : DomainError) (next : Option ℕ)
      → Keeps Pace (mark_retry_of env job_id c attempts error next)
  unfolding mark_retry_of
  mark_retry_of-Pace job_id c attempts error next = write-Pace job_id _

  stop_rate_limited-Pace :
      (job_id account_id : ℕ) (c : BufferedCandidate) (attempts : ℕ) (error : DomainError)
      → Keeps Pace (stop_rate_limited env job_id account_id c attempts error)
  unfolding stop_rate_limited
  stop_rate_limited-Pace job_id account_id c attempts error = Keeps-seq _ _ (flush-Pace _ _) (
      Keeps-seq _ _ (mark_retry_of-Pace job_id c attempts error none) (
        Keeps-seq _ _ (set_job-Pace _ _ _ refl)
          (search (keeps_rules, set_account-Pace, write-Pace))))

  pause_candidate-Pace :
      (job_id account_id : ℕ) (c : BufferedCandidate) (attempts : ℕ) (error : DomainError)
      → Keeps Pace (pause_candidate env job_id account_id c attempts error)
  unfolding pause_candidate
  pause_candidate-Pace job_id account_id c attempts error = Keeps-seq _ _ (flush-Pace _ _) (
      Keeps-seq _ _ (mark_retry_of-Pace job_id c attempts error none)
        (Keeps-seq _ _ (set_job-Pace _ _ _ refl) (search (keeps_rules, set_account-Pace))))

  retry_after-Pace :
      (delay : Option ℕ) (job_id account_id : ℕ) (c : BufferedCandidate) (attempts transient : ℕ)
      (error : DomainError)
      → Keeps Pace (retry_after env delay job_id account_id c attempts transient error)
  unfolding retry_after
  retry_after-Pace none job_id account_id c attempts transient error = search keeps_rules
  retry_after-Pace (some delay) job_id account_id c attempts transient error =
      search (keeps_rules, sleep-Pace, handle_control-Pace) depth 8

  settle-Pace :
      (c : BufferedCandidate) (attempts : ℕ) (error : DomainError) (state : MigrationItemState)
      → Keeps Pace (settle c attempts error state)
  unfolding settle
  settle-Pace c attempts error state = search (keeps_rules, mark_stable-Pace)

  -- While the executor waits for the server, the scheduler keeps the deadline that is announced.
  abbrev Held : ℕ → Scheduler → List Effect → Type 0
  Held until s trace = Inv env.utc_base s trace × (until ≤ env.utc_base + s.server_wait_until)

  held :
      (until : ℕ) (s : Scheduler) (e : Effect) (trace : List Effect)
      → IsQuiet e
      → Held until s trace
      → Held until s (e ∷ trace)
  held until s e trace q h = (quiet s e trace q h.0, h.1)

  announce-Held :
      (until job_id : ℕ) (state : JobState)
      → Keeps
          (Quiet.On (Held until) (held until) env)
          (emit (Effect.job_changed job_id state (some until)))
  unfolding emit modify
  announce-Held until job_id state = record {
    at = λ w h. (Inv-announce env.utc_base w.scheduler job_id state until w.trace h.1 h.0, h.1);
  }

  wait_until-Held :
      (until job_id account_id : ℕ) (c : BufferedCandidate) (attempts transient : ℕ)
      (error : DomainError)
      → Keeps
          (Quiet.On (Held until) (held until) env)
          (wait_until env until job_id account_id c attempts transient error)
  unfolding wait_until mark_retry_of set_job
  wait_until-Held until job_id account_id c attempts transient error =
      Keeps-seq _ _ (Quiet.flush-On (Held until) (held until) env job_id true) (
        Keeps-seq _ _ (Quiet.write-On (Held until) (held until) env job_id _) (
          Keeps-seq _ _ (Quiet.set_account-On (Held until) (held until) env job_id account_id _ _) (
            Keeps-seq _ _
              (Keeps-seq _ _ (Quiet.write-On (Held until) (held until) env job_id _)
                (announce-Held until job_id _))
              (Keeps-seq _ _ (Quiet.write-On (Held until) (held until) env job_id _) (
                Keeps-bind _ _ (Quiet.scheduled_sleep-On (Held until) (held until) env job_id)
                  λ control.
                    Keeps-bind _ _
                      (Quiet.handle_control-On (Held until) (held until) env control job_id
                        account_id)
                      λ interrupted. Keeps-if interrupted _ _ (Keeps-return _) (
                        Keeps-seq _ _
                          (Quiet.set_job-clearing-On (Held until) (held until) env job_id _)
                          (Keeps-seq _ _
                            (Quiet.set_account-On (Held until) (held until) env job_id account_id _
                              _)
                            (Keeps-return _))))))))

  flood_wait-Pace :
      (job_id account_id : ℕ) (c : BufferedCandidate) (attempts transient : ℕ) (error : DomainError)
      → Keeps Pace (flood_wait env job_id account_id c attempts transient error)
  unfolding flood_wait ◌>>=◌ ◌>>◌ modify gets apply_server_wait
  flood_wait-Pace job_id account_id c attempts transient error = record {
    at = λ w h.
        let duration = 1000 * or_else error.wait_seconds 0 in
        ((wait_until-Held (utc env w + duration) job_id account_id c attempts transient error).at
          (record w { scheduler = apply_server_wait w.scheduler w.now duration })
          (Inv-apply_server_wait env.utc_base w.scheduler w.now duration w.trace h, omega arith)).0;
  }

  on_code-Pace :
      (code : InviteResultCode) (job_id account_id : ℕ) (c : BufferedCandidate)
      (attempts transient : ℕ) (error : DomainError)
      → Keeps Pace (on_code env code job_id account_id c attempts transient error)
  unfolding on_code retry_transient
  on_code-Pace InviteResultCode.rate_limit job_id account_id c attempts transient error =
      flood_wait-Pace job_id account_id c attempts transient error
  on_code-Pace InviteResultCode.rate_limit_indefinite job_id account_id c attempts transient error =
      stop_rate_limited-Pace job_id account_id c attempts error
  on_code-Pace _ job_id account_id c attempts transient error =
      Keeps-if _ _ _ (pause_candidate-Pace job_id account_id c attempts error) (
        Keeps-if _ _ _
          (retry_after-Pace (transient_delay transient) job_id account_id c attempts transient
            error)
          (settle-Pace c attempts error _))

  -- Right after a sleep that was not cut short, the next RPC is due.
  Returns-some :
      (c : Control) (job_id account_id : ℕ)
      → Returns (handle_control env (some c) job_id account_id) (λ b. b ≡ true)
  unfolding handle_control
  Returns-some Control.stop job_id account_id =
      Returns-seq _ _ (Returns-seq _ _ (Returns-seq _ _ (Returns-return true refl)))
  Returns-some Control.pause job_id account_id =
      Returns-seq _ _ (
        Returns-seq _ _
          (Returns-bind _ _ (λ remaining. Returns-seq _ _ (Returns-return true refl))))

  send-Pace :
      (job_id ordinal : ℕ) (w : World)
      → Due w.scheduler w.now
      → Pace w
      → Pace (send env job_id ordinal w).1
  unfolding send rpc ◌>>=◌ ◌>>◌ modify gets emit
  send-Pace job_id ordinal w due h =
      (Keeps-seq _ _ (wait-Pace job_id (min (env.latency w.waits) rpc_watchdog))
          (Keeps-return _)).at
        (record w {
          scheduler = mark_attempt w.scheduler w.now;
          trace = Effect.rpc w.now ordinal ∷ w.trace;
        })
        (Inv-rpc env.utc_base w.scheduler w.now ordinal w.trace due h)
