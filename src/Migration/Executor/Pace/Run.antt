-- ===== src/Migration/Executor/Pace/Run.antt =====
-- A whole run keeps the pace of its RPCs.
use telegramv.Prelude.{
  ℕ, zero, suc, ◌+◌, ◌≡◌, refl, Bool, true, false, [], Option, none, some, String, ap, ◌∙◌,
}
use telegramv.Jobs.{ItemUpdate, no_options, clearing}
use telegramv.Migration.Scheduler.Cadence.{Due, IsValid}
use telegramv.Migration.CandidateBuffer.{BufferedCandidate, CandidateBuffer}
use telegramv.Migration.Machine.{Action, Effect, Environment, World, ok, Exec, return, ◌>>=◌}
use telegramv.Migration.Machine.Keeps.{
  Keeps, keeps_rules, Keeps-gets, Keeps-modify, Keeps-catch, Keeps-finally, Keeps-bind, Keeps-seq,
  bind-at, Keeps-return, Keeps-if, Keeps-raise,
}
use telegramv.Migration.Executor.{Control, scheduled_sleep, handle_control}
use telegramv.Migration.Executor.Run.{
  after_sleep, respond, round, attempt_next, Attempted, record_result, record_update,
  with_candidate, pop_candidate, attempt_loop, attempt, v12_attempt, run_loop, complete, run_body,
  fail_job, clean_up, prepare, run,
}
use telegramv.Migration.Executor.Quiet
use telegramv.Telegram.ErrorMapper.{RpcException, map_error}
use telegramv.Migration.Executor.Quiet.{IsQuiet}
use telegramv.Migration.Executor.Pacing.{IsPaced}
use telegramv.Migration.Executor.Attempt.{Next, send, on_error}
use telegramv.Migration.Executor.Pace.{
  Pace, scheduled_sleep-Due, scheduled_sleep-Pace, handle_control-Pace, Returns-some, send-Pace,
  on_success-Pace, on_code-Pace, flush-Pace, write-Pace, wait-Pace, set_account-Pace, set_job-Pace,
  schedule_flush-Pace, emit-Pace, quiet,
}

module _ (env : Environment) where
  -- The scheduler of a world is not touched by its scheduled sleep.
  scheduled_sleep-scheduler :
      (job_id : ℕ) (w : World) → (scheduled_sleep env job_id w).1.scheduler ≡ w.scheduler
  scheduled_sleep-scheduler job_id w =
      (Quiet.scheduled_sleep-On (λ s _. s ≡ w.scheduler) (λ s e trace q h. h) env job_id).at w refl

  respond-Pace :
      (answer : Option RpcException) (job_id account_id : ℕ) (c : BufferedCandidate)
      (attempts transient : ℕ)
      → Keeps (Pace env) (respond env answer job_id account_id c attempts transient)
  unfolding respond on_error
  respond-Pace none job_id account_id c attempts transient = on_success-Pace env c attempts
  respond-Pace (some exc) job_id account_id c attempts transient =
      on_code-Pace env (map_error exc).code job_id account_id c attempts transient (map_error exc)

  -- A set flag ends the attempt before another RPC.
  interrupted-Pace :
      (c : Control) (job_id account_id : ℕ) (candidate : BufferedCandidate) (attempts transient : ℕ)
      (w : World)
      → Pace env w
      → Pace env (after_sleep env (some c) job_id account_id candidate attempts transient w).1
  unfolding after_sleep return
  interrupted-Pace c job_id account_id candidate attempts transient w h =
      bind-at (Pace env) (handle_control env (some c) job_id account_id) _ w
        ((handle_control-Pace env (some c) job_id account_id).at w h)
        λ b e.
          rw ((Returns-some env c job_id account_id).at w b e)
            ((handle_control-Pace env (some c) job_id account_id).at w h)

  after_sleep-Pace :
      (c : Option Control) (job_id account_id : ℕ) (candidate : BufferedCandidate)
      (attempts transient : ℕ) (w : World)
      → (c ≡ none → Due w.scheduler w.now)
      → Pace env w
      → Pace env (after_sleep env c job_id account_id candidate attempts transient w).1
  unfolding after_sleep handle_control ◌>>=◌ return
  after_sleep-Pace (some c) job_id account_id candidate attempts transient w due h =
      interrupted-Pace c job_id account_id candidate attempts transient w h
  after_sleep-Pace none job_id account_id candidate attempts transient w due h =
      bind-at (Pace env) (send env job_id candidate.ordinal) _ w
        (send-Pace env job_id candidate.ordinal w (due refl) h)
        λ answer _.
          (respond-Pace answer job_id account_id candidate (attempts + 1) transient).at _
            (send-Pace env job_id candidate.ordinal w (due refl) h)

  round-Pace :
      (job_id account_id : ℕ) (candidate : BufferedCandidate) (attempts transient : ℕ)
      → Keeps (Pace env) (round env job_id account_id candidate attempts transient)
  unfolding round
  round-Pace job_id account_id candidate attempts transient = record {
    at = λ w h.
        let slept : Pace env (scheduled_sleep env job_id w).1 =
          (scheduled_sleep-Pace env job_id).at w h in
        bind-at (Pace env) (scheduled_sleep env job_id) _ w slept λ c e.
          after_sleep-Pace c job_id account_id candidate attempts transient _
            (λ n.
              rw (scheduled_sleep-scheduler job_id w)
                (scheduled_sleep-Due env job_id w (e ∙ ap ok n)))
            slept;
  }

  attempt_next-Pace :
      (next : Next) (rest : ℕ → Exec Attempted)
      → ((failures : ℕ) → Keeps (Pace env) (rest failures))
      → Keeps (Pace env) (attempt_next next rest)
  unfolding attempt_next
  attempt_next-Pace (Next.done update stop) rest k = Keeps-return _
  attempt_next-Pace (Next.again failures) rest k = k failures

  attempt_loop-Pace :
      (fuel job_id account_id : ℕ) (candidate : BufferedCandidate) (attempts transient : ℕ)
      → Keeps (Pace env) (attempt_loop env fuel job_id account_id candidate attempts transient)
  unfolding attempt_loop
  attempt_loop-Pace zero job_id account_id candidate attempts transient = search keeps_rules
  attempt_loop-Pace (suc fuel) job_id account_id candidate attempts transient =
      Keeps-bind _ _ (round-Pace job_id account_id candidate attempts transient) λ next.
        attempt_next-Pace next _ (attempt_loop-Pace fuel job_id account_id candidate (attempts + 1))

  v12_attempt-Pace :
      (action : Action) (fuel job_id account_id : ℕ) (candidate : BufferedCandidate)
      → Keeps (Pace env) (v12_attempt env action fuel job_id account_id candidate)
  unfolding v12_attempt attempt
  v12_attempt-Pace action fuel job_id account_id candidate =
      search (keeps_rules, attempt_loop-Pace, write-Pace env) depth 8

  record_result-Pace :
      (job_id : ℕ) (buffer : CandidateBuffer) (update : Option ItemUpdate)
      → Keeps (Pace env) (record_result env job_id buffer update)
  unfolding record_result record_update
  record_result-Pace job_id buffer none = search keeps_rules
  record_result-Pace job_id buffer (some update) = Keeps-seq _ _ (Keeps-modify _ (λ w h. h)) (
      Keeps-seq _ _ (flush-Pace env job_id false) (
        Keeps-seq _ _ (schedule_flush-Pace env)
          (emit-Pace env (Effect.item_completed job_id update.ordinal update.state _) tt)))

  with_candidate-Pace :
      (popped : Option BufferedCandidate) (action : Action) (fuel job_id account_id : ℕ)
      (buffer : CandidateBuffer) (rest : Exec Bool)
      → Keeps (Pace env) rest
      → Keeps (Pace env) (with_candidate env popped action fuel job_id account_id buffer rest)
  unfolding with_candidate
  with_candidate-Pace none action fuel job_id account_id buffer rest k = search keeps_rules
  with_candidate-Pace (some candidate) action fuel job_id account_id buffer rest k =
      search (keeps_rules, v12_attempt-Pace, record_result-Pace) depth 8

  run_loop-Pace :
      (action : Action) (fuel job_id account_id : ℕ) (buffer : CandidateBuffer)
      → Keeps (Pace env) (run_loop env action fuel job_id account_id buffer)
  unfolding run_loop pop_candidate
  run_loop-Pace action zero job_id account_id buffer = search keeps_rules
  run_loop-Pace action (suc fuel) job_id account_id buffer = Keeps-bind _ _ (Keeps-gets _) λ c.
      Keeps-bind _ _ (handle_control-Pace env c job_id account_id) λ interrupted.
        Keeps-if interrupted _ _ (Keeps-return true) (
          Keeps-bind _ _ (Keeps-seq _ _ (wait-Pace env job_id 0) (Keeps-gets _)) λ popped.
            with_candidate-Pace popped.1 action fuel job_id account_id popped.0 _
              (run_loop-Pace action fuel job_id account_id popped.0))

  complete-Pace : (job_id account_id : ℕ) → Keeps (Pace env) (complete env job_id account_id)
  unfolding complete
  complete-Pace job_id account_id = Keeps-seq _ _ (flush-Pace env job_id true) (
      Keeps-bind _ _ (Keeps-gets _) λ counts.
        Keeps-seq _ _ (set_job-Pace env job_id _ clearing refl)
          (Keeps-seq _ _ (set_account-Pace env job_id account_id _ none) (emit-Pace env _ tt)))

  fail_job-Pace :
      (job_id account_id : ℕ) (error : String)
      → Keeps (Pace env) (fail_job env job_id account_id error)
  unfolding fail_job
  fail_job-Pace job_id account_id error = Keeps-seq _ _ (flush-Pace env job_id true) (
      Keeps-seq _ _ (set_job-Pace env job_id _ clearing refl)
        (search (keeps_rules, set_account-Pace env)))

  prepare-Pace : (job_id account_id : ℕ) → Keeps (Pace env) (prepare env job_id account_id)
  unfolding prepare
  prepare-Pace job_id account_id = Keeps-seq _ _ (Keeps-modify _ (λ w h. h)) (
      Keeps-seq _ _ (set_job-Pace env job_id _ no_options refl)
        (search (keeps_rules, set_account-Pace env, wait-Pace env) depth 7))

  run_body-Pace :
      (action : Action) (fuel job_id account_id : ℕ) (buffer : CandidateBuffer)
      → Keeps (Pace env) (run_body env action fuel job_id account_id buffer)
  unfolding run_body
  run_body-Pace action fuel job_id account_id buffer =
      search (keeps_rules, wait-Pace env, run_loop-Pace, complete-Pace) depth 7

  run-Pace :
      (action : Action) (fuel job_id account_id : ℕ)
      → Keeps (Pace env) (run env action fuel job_id account_id)
  unfolding run clean_up
  run-Pace action fuel job_id account_id = Keeps-bind _ _ (Keeps-gets _) λ running.
      Keeps-if running _ _ (Keeps-raise _) (
        Keeps-bind _ _ (prepare-Pace job_id account_id) λ buffer.
          Keeps-finally _ _
            (Keeps-catch _ _ (run_body-Pace action fuel job_id account_id buffer)
              (fail_job-Pace job_id account_id))
            (λ w h. h))

-- A run of the executor that starts with a scheduler whose intervals are within the limits paces
-- its RPCs, whatever the gateway answers, the user requests and the writes do, and however the run
-- ends: each RPC is sent 3 seconds at least after the one before it, and not before any deadline
-- of the server that the run has announced until then.
pub run-IsPaced :
    (env : Environment) (action : Action) (fuel job_id account_id : ℕ) (w : World)
    → IsValid w.scheduler
    → w.trace ≡ []
    → IsPaced env.utc_base (run env action fuel job_id account_id w).1.trace
run-IsPaced env action fuel job_id account_id w valid quiet =
    ((run-Pace env action fuel job_id account_id).at w
      (rw quiet (record { valid = valid; paced = tt; recorded = tt; announced = tt }))).paced
