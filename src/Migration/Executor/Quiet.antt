-- ===== src/Migration/Executor/Quiet.antt =====
-- What the steps of an executor leave alone: a property of the scheduler and the trace survives
-- whatever sends no RPC, announces no deadline and does not touch the scheduler.
use telegramv.Prelude.{
  ℕ, zero, suc, ◌+◌, Bool, true, false, List, [], ◌∷◌, Option, none, some, arith, String,
}
use telegramv.Core.{JobState, AccountState}
use telegramv.Storage.{Database}
use telegramv.Jobs.{ItemUpdate, StateOptions, no_options, clearing}
use telegramv.Migration.Scheduler.{Scheduler, remaining_delay}
use telegramv.Migration.Machine.{Request, Effect, Environment, World, Exec, return, modify, emit}
use telegramv.Migration.Machine.Keeps.{
  Keeps, keeps_rules, Keeps-gets, Keeps-modify, Keeps-bind, Keeps-seq,
}
use telegramv.Migration.Executor.{
  Control, handle_requests, pass_time, flush_buffer, delayed_flush, wait, commit, write,
  set_account, set_job, flush_updates, flush, schedule_flush, poll_on, poll, sleep, scheduled_sleep,
  handle_control,
}

-- No RPC, and no announcement of a server's deadline.
abbrev pub IsQuiet : Effect → Type 0
IsQuiet (Effect.rpc t ordinal) = ⊥
IsQuiet (Effect.job_changed job_id state (some until)) = ⊥
IsQuiet _ = Unit

-- A property of the scheduler and the trace; what the other parts of the world do is nothing to it.
module _ (F : Scheduler → List Effect → Type 0)
    (quiet : (s : Scheduler) (e : Effect) (trace : List Effect)
      → IsQuiet e
      → F s trace
      → F s (e ∷ trace))
    (env : Environment) where
  abbrev pub On : World → Type 0
  On w = F w.scheduler w.trace

  handle_requests-On : (w : World) (rs : List Request) → On w → On (handle_requests w rs)
  unfolding handle_requests
  handle_requests-On w [] h = h
  handle_requests-On w (Request.stop ∷ rs) h = handle_requests-On _ rs h
  handle_requests-On w (Request.pause ∷ rs) h = handle_requests-On _ rs h
  handle_requests-On w (Request.resume ∷ rs) h = handle_requests-On _ rs h

  flush_buffer-On :
      (job_id : ℕ) (us : List ItemUpdate) (w : World) → On w → On (flush_buffer env job_id us w)
  unfolding flush_buffer
  flush_buffer-On job_id [] w h = h
  flush_buffer-On job_id (u ∷ us) w h = ground arith

  delayed_flush-On : (job_id : ℕ) (w : World) → On w → On (delayed_flush env job_id w)
  unfolding delayed_flush
  delayed_flush-On job_id w h = ground (arith, flush_buffer-On job_id w.result_buffer w h)

  pass_time-On : (duration : ℕ) (w : World) → On w → On (pass_time env duration w)
  unfolding pass_time
  pass_time-On duration w h = handle_requests-On w (env.requests w.waits) h

  pub wait-On : (job_id duration : ℕ) → Keeps On (wait env job_id duration)
  unfolding wait
  wait-On job_id duration =
      Keeps-modify _
        (λ w h. delayed_flush-On job_id (pass_time env duration w) (pass_time-On duration w h))

  commit-On : (transaction : ℕ → Database → Database) → Keeps On (commit env transaction)
  unfolding commit
  commit-On transaction = record { at = λ w h. ground arith }

  pub write-On :
      (job_id : ℕ) (transaction : ℕ → Database → Database) → Keeps On (write env job_id transaction)
  unfolding write
  write-On job_id transaction = search (keeps_rules, wait-On, commit-On)

  pub emit-On : (e : Effect) → IsQuiet e → Keeps On (emit e)
  unfolding emit modify
  emit-On e q = record { at = λ w h. quiet w.scheduler e w.trace q h }

  pub set_account-On :
      (job_id account_id : ℕ) (state : AccountState) (error : Option String)
      → Keeps On (set_account env job_id account_id state error)
  unfolding set_account
  set_account-On job_id account_id state error =
      Keeps-seq _ _ (write-On _ _) (emit-On (Effect.account_changed account_id state error) tt)

  pub set_job-On :
      (job_id : ℕ) (state : JobState) (options : StateOptions)
      → IsQuiet (Effect.job_changed job_id state options.waiting_until)
      → Keeps On (set_job env job_id state options)
  unfolding set_job
  set_job-On job_id state options q = Keeps-seq _ _ (write-On _ _) (emit-On _ q)

  pub set_job_plain-On :
      (job_id : ℕ) (state : JobState) → Keeps On (set_job env job_id state no_options)
  set_job_plain-On job_id state = set_job-On job_id state no_options tt

  pub set_job-clearing-On :
      (job_id : ℕ) (state : JobState) → Keeps On (set_job env job_id state clearing)
  set_job-clearing-On job_id state = set_job-On job_id state clearing tt

  flush_updates-On : (job_id : ℕ) (us : List ItemUpdate) → Keeps On (flush_updates env job_id us)
  unfolding flush_updates modify
  flush_updates-On job_id [] = search keeps_rules
  flush_updates-On job_id (u ∷ us) =
      Keeps-seq _ _ (record { at = λ w h. h })
        (Keeps-seq _ _ (write-On _ _) (record { at = λ w h. h }))

  pub flush-On : (job_id : ℕ) (force : Bool) → Keeps On (flush env job_id force)
  unfolding flush return
  flush-On job_id force = record {
    at = λ w h. ground (arith, (flush_updates-On job_id w.result_buffer).at w h);
  }

  pub schedule_flush-On : Keeps On (schedule_flush env)
  unfolding schedule_flush
  schedule_flush-On = Keeps-modify _ (λ w h. ground arith)

  poll_on-On :
      (c : Option Control) (go : Bool) (next : Exec (Option Control))
      → Keeps On next
      → Keeps On (poll_on c go next)
  unfolding poll_on
  poll_on-On (some c) go next k = search keeps_rules
  poll_on-On none false next k = search keeps_rules
  poll_on-On none true next k = k

  pub poll-On : (fuel job_id deadline : ℕ) → Keeps On (poll env fuel job_id deadline)
  unfolding poll
  poll-On zero job_id deadline = search keeps_rules
  poll-On (suc fuel) job_id deadline =
      Keeps-bind _ _ (Keeps-gets _)
        (λ w. poll_on-On _ _ _ (Keeps-seq _ _ (wait-On _ _) (poll-On fuel job_id deadline)))

  pub sleep-On : (job_id duration : ℕ) → Keeps On (sleep env job_id duration)
  unfolding sleep
  sleep-On job_id duration = record {
    at = λ w h. (poll-On (suc duration) job_id (w.now + duration)).at w h;
  }

  pub scheduled_sleep-On : (job_id : ℕ) → Keeps On (scheduled_sleep env job_id)
  unfolding scheduled_sleep
  scheduled_sleep-On job_id = record {
    at = λ w h. (sleep-On job_id (remaining_delay w.scheduler w.now)).at w h;
  }

  pub handle_control-On :
      (c : Option Control) (job_id account_id : ℕ)
      → Keeps On (handle_control env c job_id account_id)
  unfolding handle_control
  handle_control-On none job_id account_id = search keeps_rules
  handle_control-On (some Control.stop) job_id account_id =
      search (keeps_rules, flush-On, set_account-On, set_job-clearing-On) depth 9
  handle_control-On (some Control.pause) job_id account_id =
      search (keeps_rules, flush-On, set_account-On, set_job_plain-On) depth 9
