-- ===== src/Migration/Executor/Run.antt =====
-- `_attempt` and `run` of src/tms/migration/executor.py, and `_attempt` of v12_executor.py.
use telegramv.Prelude.{
  ℕ, zero, suc, ◌+◌, ◌-◌, Bool, true, false, ◌&&◌, Option, none, some, String, ltb, if◌then◌else◌,
  is_some, length, [], ◌∷◌, ◌++◌,
}
use telegramv.Core.{
  AccountState, JobState, MigrationItemState, InviteResultCode, candidate_prefetch_min,
}
use telegramv.Storage.{JobRow}
use telegramv.Jobs
use telegramv.Jobs.{ItemUpdate, StateOptions, no_options, clearing}
use telegramv.Accounts
use telegramv.Accounts.{Restriction}
use telegramv.Telegram.ErrorMapper.{RpcException, map_error}
use telegramv.Migration.CandidateBuffer
use telegramv.Migration.CandidateBuffer.{BufferedCandidate, CandidateBuffer}
use telegramv.Migration.Machine.{
  Action, invite, remove, Effect, Environment, World, Exec, return, raise, starve, ◌>>=◌, ◌>>◌,
  gets, modify, emit, catch, finally,
}
use telegramv.Migration.Executor.{
  wait, write, set_account, set_job, flush, schedule_flush, Control, scheduled_sleep,
  handle_control, control,
}
use telegramv.Migration.Executor.Attempt.{Next, send, on_error, on_success}

-- The candidate that the hot path cannot send.
abbrev pub is_sendable : BufferedCandidate → Bool
is_sendable c = is_some c.member.telegram_user_id && is_some c.member.access_hash

unfoldable pub unsendable_update : BufferedCandidate → ItemUpdate
unsendable_update candidate = record {
  ordinal = candidate.ordinal;
  state = MigrationItemState.failed;
  attempts = candidate.persisted_attempts;
  error_code = some InviteResultCode.invalid_user;
  error_text = some "Candidate lacks user id/access hash";
}

unfoldable pub row_is_rate_limited : Option JobRow → Bool
row_is_rate_limited none = false
row_is_rate_limited (some row) = elim row.state [ JobState.rate_limited ↦ true | _ ↦ false ]

unfoldable pub action_name : Action → String
action_name invite = "INVITE"
action_name remove = "REMOVE"

unfoldable pub request_name : Action → String
request_name invite = "InviteToChannelRequest"
request_name remove = "EditBannedRequest"

unfoldable pub indefinite_restriction : Action → Restriction
indefinite_restriction action = record {
  action_type = action_name action;
  restriction_type = "RATE_LIMIT_INDEFINITE";
  rpc_code = some 420;
  exception_name = some "RateLimit";
  request_type = some (request_name action);
}

-- What the loop of `_attempt` returns: an update or none, and whether the job is interrupted.
pub record Attempted : Type 0 where
  pub update : Option ItemUpdate
  pub stop : Bool

-- `return` or `continue`, the latter with the transient failures so far.
unfoldable pub attempt_next : Next → (ℕ → Exec Attempted) → Exec Attempted
attempt_next (Next.done update stop) rest = return (record { update = update; stop = stop })
attempt_next (Next.again failures) rest = rest failures

module _ (env : Environment) where
  -- What an RPC's answer leads to.
  unfoldable pub respond : Option RpcException → ℕ → ℕ → BufferedCandidate → ℕ → ℕ → Exec Next
  respond none job_id account_id candidate attempts transient = on_success candidate attempts
  respond (some exc) job_id account_id candidate attempts transient =
      on_error env job_id account_id candidate attempts transient (map_error exc)

  unfoldable pub after_sleep : Option Control → ℕ → ℕ → BufferedCandidate → ℕ → ℕ → Exec Next
  after_sleep c job_id account_id candidate attempts transient = do
    interrupted ← handle_control env c job_id account_id
    if interrupted then return (Next.done none true) else do
      answer ← send env job_id candidate.ordinal
      respond answer job_id account_id candidate (attempts + 1) transient

  -- One round of the loop of `_attempt`.
  unfoldable pub round : ℕ → ℕ → BufferedCandidate → ℕ → ℕ → Exec Next
  unfolding after_sleep respond
  round job_id account_id candidate attempts transient = do
    c ← scheduled_sleep env job_id
    after_sleep c job_id account_id candidate attempts transient

  -- The loop of `_attempt`; each round is one RPC at most.
  unfoldable pub attempt_loop : ℕ → ℕ → ℕ → BufferedCandidate → ℕ → ℕ → Exec Attempted
  attempt_loop zero job_id account_id candidate attempts transient = starve
  attempt_loop (suc fuel) job_id account_id candidate attempts transient = do
    next ← round job_id account_id candidate attempts transient
    attempt_next next (attempt_loop fuel job_id account_id candidate (attempts + 1))

  -- `MigrationExecutor._attempt`
  unfoldable pub attempt : ℕ → ℕ → ℕ → BufferedCandidate → Exec Attempted
  unfolding unsendable_update
  attempt fuel job_id account_id candidate =
      if is_sendable candidate
      then attempt_loop fuel job_id account_id candidate candidate.persisted_attempts 0
      else return (record { update = some (unsendable_update candidate); stop = false })

  -- `V12MigrationExecutor._attempt`
  unfoldable pub v12_attempt : Action → ℕ → ℕ → ℕ → BufferedCandidate → Exec Attempted
  unfolding row_is_rate_limited indefinite_restriction action_name request_name
  v12_attempt action fuel job_id account_id candidate = do
    result ← attempt fuel job_id account_id candidate
    row ← gets (λ w. Jobs.get job_id w.db)
    if row_is_rate_limited row
        then (do
          write env job_id (λ _ db. Accounts.restrict account_id (indefinite_restriction action) db)
          return result)
        else return result

  -- `await buffer.pop()`
  unfoldable pub pop_candidate :
      ℕ → CandidateBuffer → Exec (CandidateBuffer × Option BufferedCandidate)
  pop_candidate job_id buffer = do wait env job_id 0; gets (λ w. CandidateBuffer.pop buffer w.db)

  unfoldable pub record_update : ℕ → CandidateBuffer → ItemUpdate → Exec Unit
  record_update job_id buffer update = do
    modify (λ w. record w { result_buffer = w.result_buffer ++ update ∷ [] })
    flush env job_id false
    schedule_flush env
    emit (Effect.item_completed job_id update.ordinal update.state (length buffer.queue))

  unfoldable pub record_result : ℕ → CandidateBuffer → Option ItemUpdate → Exec Unit
  unfolding record_update
  record_result job_id buffer none = return tt
  record_result job_id buffer (some update) = record_update job_id buffer update

  -- The body of the loop of `run`, for the candidate that `pop` gave; `rest` is the next round.
  unfoldable pub with_candidate :
      Option BufferedCandidate → Action → ℕ → ℕ → ℕ → CandidateBuffer → Exec Bool → Exec Bool
  unfolding record_result
  with_candidate none action fuel job_id account_id buffer rest = return false
  with_candidate (some candidate) action fuel job_id account_id buffer rest = do
    result ← v12_attempt action fuel job_id account_id candidate
    if result.stop then return true else do record_result job_id buffer result.update; rest

  -- The loop of `run`, over the candidates; it returns `interrupted`.
  unfoldable pub run_loop : Action → ℕ → ℕ → ℕ → CandidateBuffer → Exec Bool
  unfolding pop_candidate with_candidate
  run_loop action zero job_id account_id buffer = starve
  run_loop action (suc fuel) job_id account_id buffer = do
    c ← gets control
    interrupted ← handle_control env c job_id account_id
    if interrupted then return true else do
      popped ← pop_candidate job_id buffer
      with_candidate popped.1 action fuel job_id account_id popped.0
          (run_loop action fuel job_id account_id popped.0)

  -- What follows the loop where it was not interrupted.
  unfoldable pub complete : ℕ → ℕ → Exec Unit
  complete job_id account_id = do
    flush env job_id true
    counts ← gets (λ w. Jobs.summary job_id w.db)
    let final = if ltb 0 counts.failed then JobState.completed_with_errors else JobState.completed
    set_job env job_id final clearing
    set_account env job_id account_id AccountState.ready none
    emit (Effect.migration_completed job_id final)

  -- The body of the `try`; the wait is for the account's mutation lock.
  unfoldable pub run_body : Action → ℕ → ℕ → ℕ → CandidateBuffer → Exec Unit
  run_body action fuel job_id account_id buffer = do
    wait env job_id 0
    interrupted ← run_loop action fuel job_id account_id buffer
    if interrupted then return tt else complete job_id account_id

  -- The `except` clause.
  unfoldable pub fail_job : ℕ → ℕ → String → Exec Unit
  fail_job job_id account_id error = do
    flush env job_id true
    set_job env job_id JobState.failed clearing
    set_account env job_id account_id AccountState.error (some error)
    raise error

  -- The `finally` clause.
  unfoldable pub clean_up : World → World
  clean_up w = record w {
    flush_at = none;
    performance_users = w.performance_users - 1;
    running_job = none;
    stop_event = false;
    pause_event = false;
  }

  -- What `run` does before the `try`.
  unfoldable pub prepare : ℕ → ℕ → Exec CandidateBuffer
  prepare job_id account_id = do
    modify (λ w. record w {
      running_job = some job_id;
      stop_event = false;
      pause_event = false;
      result_buffer = [];
      last_flush = w.now;
      performance_users = w.performance_users + 1;
    })
    set_job env job_id JobState.running no_options
    set_account env job_id account_id AccountState.busy none
    wait env job_id 0
    gets (λ w.
        CandidateBuffer.prime (CandidateBuffer.init job_id account_id candidate_prefetch_min) w.db)

  unfoldable pub run : Action → ℕ → ℕ → ℕ → Exec Unit
  run action fuel job_id account_id = do
    running ← gets (λ w. is_some w.running_job)
    if running then raise "This executor already has a running mutation job" else do
      buffer ← prepare job_id account_id
      finally (catch (run_body action fuel job_id account_id buffer) (fail_job job_id account_id))
          (clean_up)
