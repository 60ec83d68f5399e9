-- ===== src/Migration/Executor.antt =====
-- src/tms/migration/executor.py and v12_executor.py, for the clock of the application (RealClock).
-- Each `await` is a `wait`: time passes, the requests of other threads are taken in, and a delayed
-- flush that is due is made. A wait of the source in seconds is one of 1000 times the milliseconds.
pub mod Attempt
pub mod Quiet
pub mod Sleep
pub mod Pacing
pub mod Pace
pub mod Run
use telegramv.Prelude.{
  ℕ, zero, suc, ◌+◌, ◌-◌, ◌*◌, ◌<◌, min, sub_ℕ, pos, Bool, true, false, not, ◌&&◌, ◌||◌, List, [],
  ◌∷◌, ◌++◌, Option, none, some, String, ltb, leb, if◌then◌else◌, or_else, is_some, length,
}
use telegramv.Core.{
  AccountState, JobState, MigrationItemState, InviteResultCode, DomainError,
  migration_db_batch_size, migration_db_max_flush, rpc_watchdog,
}
use telegramv.Storage.{Database, Json, JsonValue}
use telegramv.Jobs
use telegramv.Jobs.{ItemUpdate, StateOptions, no_options, clearing}
use telegramv.Jobs.Items.{update_items_batch, mark_retry}
use telegramv.Accounts
use telegramv.Telegram.ErrorMapper.{RpcException, map_error}
use telegramv.Migration.Classifier.{ClassifiedResult, classify}
use telegramv.Migration.Scheduler.{
  Scheduler, apply_server_wait, server_wait_remaining, remaining_delay, mark_attempt,
  mark_stable_candidate,
}
use telegramv.Migration.CandidateBuffer.{BufferedCandidate}
use telegramv.Migration.Machine.{
  Action, Request, Effect, Environment, World, Outcome, ok, raised, out_of_fuel, Exec, return,
  raise, starve, continue, ◌>>=◌, ◌>>◌, gets, modify, emit,
}

pub data Control : Type 0 where
  stop pause : Control

-- The flags after a request; a request of a thread sets or clears one of them.
handle_request : World → Request → World
handle_request w Request.stop = record w { stop_event = true }
handle_request w Request.pause = record w { pause_event = true }
handle_request w Request.resume = record w { pause_event = false }

handle_requests : World → List Request → World
unfolding handle_request
handle_requests w [] = w
handle_requests w (r ∷ rs) = handle_requests (handle_request w r) rs

-- `_control`
unfoldable pub control : World → Option Control
control w =
    if w.stop_event then some Control.stop else if w.pause_event then some Control.pause else none

last_of : ItemUpdate → List ItemUpdate → ℕ
last_of u [] = u.ordinal
last_of u (v ∷ us) = last_of v us

-- `{'last_ordinal': updates[-1].ordinal}`
unfoldable pub batch_checkpoint : List ItemUpdate → Json
unfolding last_of
batch_checkpoint [] = []
batch_checkpoint (u ∷ us) = ("last_ordinal", JsonValue.number (pos (last_of u us))) ∷ []

-- `{'last_ordinal': candidate.ordinal-1}`
unfoldable pub retry_checkpoint : ℕ → Json
retry_checkpoint ordinal = ("last_ordinal", JsonValue.number (sub_ℕ ordinal 1)) ∷ []

-- One poll: a set flag ends the sleep, and so does the deadline.
poll_on : Option Control → Bool → Exec (Option Control) → Exec (Option Control)
poll_on (some c) go next = return (some c)
poll_on none false next = return none
poll_on none true next = next

module _ (env : Environment) where
  abbrev pub utc : World → ℕ
  utc w = env.utc_base + w.now

  pass_time : ℕ → World → World
  unfolding handle_requests
  pass_time duration w = record (handle_requests w (env.requests w.waits)) {
    now = w.now + duration + env.elapse w.waits;
    waits = suc w.waits;
  }

  -- What the delayed flush writes; where the write fails its updates are gone.
  flush_buffer : ℕ → List ItemUpdate → World → World
  unfolding batch_checkpoint
  flush_buffer job_id [] w = w
  flush_buffer job_id (u ∷ us) w =
      if is_some (env.write_error w.waits)
      then record w { result_buffer = []; waits = suc w.waits }
      else record w {
        result_buffer = [];
        db = update_items_batch job_id (u ∷ us) (some (batch_checkpoint (u ∷ us))) (utc w) w.db;
        last_flush = w.now;
        waits = suc w.waits;
      }

  -- The task of `_schedule_flush`, run at the first wait that ends when its second is over.
  delayed_flush : ℕ → World → World
  unfolding flush_buffer
  delayed_flush job_id w = elim w.flush_at [
    | none ↦ w
    | some t ↦
        if leb t w.now
        then record (flush_buffer job_id w.result_buffer w) { flush_at = none }
        else w
  ]

  unfoldable pub wait : ℕ → ℕ → Exec Unit
  unfolding modify pass_time delayed_flush
  wait job_id duration = modify λ w. delayed_flush job_id (pass_time duration w)

  -- `_await_write`: the transaction is committed, or rolled back with an exception.
  commit : (ℕ → Database → Database) → Exec Unit
  commit transaction w = elim (env.write_error w.waits) [
    | none ↦ (ok tt, record w { db = transaction (utc w) w.db; waits = suc w.waits })
    | some error ↦ (raised error, record w { waits = suc w.waits })
  ]

  unfoldable pub write : ℕ → (ℕ → Database → Database) → Exec Unit
  unfolding commit
  write job_id transaction = do wait job_id 0; commit transaction

  -- `_set_account`
  unfoldable pub set_account : ℕ → ℕ → AccountState → Option String → Exec Unit
  set_account job_id account_id state error = do
    write job_id (λ _ db. Accounts.set_state account_id state error db)
    emit (Effect.account_changed account_id state error)

  -- `_set_job`
  unfoldable pub set_job : ℕ → JobState → StateOptions → Exec Unit
  set_job job_id state options = do
    write job_id (λ now db. Jobs.set_state job_id state options now db)
    emit (Effect.job_changed job_id state options.waiting_until)

  -- The tests of `_flush`.
  flush_now : Bool → World → Bool
  flush_now force w =
      force
      || not (ltb (length w.result_buffer) migration_db_batch_size)
      || not (ltb (w.now - w.last_flush) migration_db_max_flush)

  flush_updates : ℕ → List ItemUpdate → Exec Unit
  unfolding batch_checkpoint
  flush_updates job_id [] = return tt
  flush_updates job_id (u ∷ us) = do
    modify (λ w. record w { result_buffer = [] })
    write job_id
        (λ now db. update_items_batch job_id (u ∷ us) (some (batch_checkpoint (u ∷ us))) now db)
    modify (λ w. record w { last_flush = w.now })

  -- `_flush`
  unfoldable pub flush : ℕ → Bool → Exec Unit
  unfolding flush_now flush_updates
  flush job_id force w =
      if flush_now force w then flush_updates job_id w.result_buffer w else return tt w

  -- `_schedule_flush`
  unfoldable pub schedule_flush : Exec Unit
  unfolding modify
  schedule_flush = modify λ w.
      if is_some w.flush_at
      then w
      else record w { flush_at = some (w.now + migration_db_max_flush) }

  -- `_sleep`: the flags are polled every quarter of a second until the deadline.
  pub poll : ℕ → ℕ → ℕ → Exec (Option Control)
  unfolding control poll_on
  poll zero job_id deadline = starve
  poll (suc fuel) job_id deadline = do
    w ← gets (λ w. w)
    poll_on (control w) (ltb w.now deadline)
        (wait job_id (min 250 (deadline - w.now)) >> poll fuel job_id deadline)

  -- A wait of the sleep takes at least a millisecond, so that its length bounds the polls.
  unfoldable pub sleep : ℕ → ℕ → Exec (Option Control)
  unfolding poll
  sleep job_id duration w = poll (suc duration) job_id (w.now + duration) w

  unfoldable pub scheduled_sleep : ℕ → Exec (Option Control)
  unfolding sleep
  scheduled_sleep job_id w = sleep job_id (remaining_delay w.scheduler w.now) w

  -- `_handle_control`
  unfoldable pub handle_control : Option Control → ℕ → ℕ → Exec Bool
  handle_control none job_id account_id = return false
  handle_control (some Control.stop) job_id account_id = do
    flush job_id true
    set_job job_id JobState.cancelled clearing
    set_account job_id account_id AccountState.ready none
    return true
  handle_control (some Control.pause) job_id account_id = do
    flush job_id true
    set_job job_id JobState.paused no_options
    remaining ← gets (λ w. server_wait_remaining w.scheduler w.now)
    set_account job_id account_id
        (if ltb 0 remaining then AccountState.waiting_server else AccountState.ready) none
    return true
