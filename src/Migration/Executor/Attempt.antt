-- ===== src/Migration/Executor/Attempt.antt =====
-- `_rpc` and `_attempt` of src/tms/migration/executor.py, and `_attempt` of v12_executor.py.
use telegramv.Prelude.{
  ℕ, zero, suc, ◌+◌, ◌*◌, min, Bool, true, false, ◌&&◌, Option, none, some, ltb, if◌then◌else◌,
  or_else, is_some,
}
use telegramv.Core.{
  AccountState, JobState, MigrationItemState, InviteResultCode, DomainError, rpc_watchdog,
}
use telegramv.Storage.{wait_message, message_text}
use telegramv.Jobs
use telegramv.Jobs.{ItemUpdate, StateOptions, no_options, clearing}
use telegramv.Jobs.Items.{mark_retry}
use telegramv.Telegram.ErrorMapper.{RpcException}
use telegramv.Migration.Classifier.{classify}
use telegramv.Migration.Scheduler.{apply_server_wait, mark_attempt, mark_stable_candidate}
use telegramv.Migration.CandidateBuffer.{BufferedCandidate}
use telegramv.Migration.Machine.{Effect, Environment, Exec, return, ◌>>=◌, ◌>>◌, gets, modify, emit}
use telegramv.Migration.Executor.{
  wait, write, set_account, set_job, flush, sleep, scheduled_sleep, handle_control,
  retry_checkpoint, utc,
}

-- TRANSIENT_RETRY_DELAYS_SECONDS, by the failures so far
unfoldable pub transient_delay : ℕ → Option ℕ
transient_delay zero = some 1000
transient_delay (suc zero) = some 2000
transient_delay (suc (suc zero)) = some 4000
transient_delay (suc (suc (suc n))) = none

-- The TimeoutError of `asyncio.wait_for`.
abbrev pub timeout_error : RpcException
timeout_error = record {
  type_name = "TimeoutError";
  text = "";
  seconds = none;
  value = none;
  is_os_error = true;
}

unfoldable pub is_transient : InviteResultCode → Bool
is_transient InviteResultCode.network_transient = true
is_transient InviteResultCode.server_transient = true
is_transient _ = false

unfoldable pub account_state_for : InviteResultCode → AccountState
account_state_for InviteResultCode.auth = AccountState.auth_required
account_state_for _ = AccountState.error

unfoldable pub mark_stable : Exec Unit
mark_stable = modify λ w. record w { scheduler = mark_stable_candidate w.scheduler w.now }

-- How the loop goes on: with an answer, or with the same candidate after some transient failures.
pub data Next : Type 0 where
  done : Option ItemUpdate → Bool → Next
  again : ℕ → Next

abbrev pub failed_update : BufferedCandidate → ℕ → DomainError → ItemUpdate
failed_update candidate attempts error = record {
  ordinal = candidate.ordinal;
  state = MigrationItemState.failed;
  attempts = attempts;
  error_code = some error.code;
  error_text = some error.text;
}

unfoldable pub on_success : BufferedCandidate → ℕ → Exec Next
unfolding mark_stable
on_success candidate attempts = do
  mark_stable
  return (
      Next.done
        (some (record {
          ordinal = candidate.ordinal;
          state = MigrationItemState.success;
          attempts = attempts;
          error_code = none;
          error_text = none;
        }))
        false)

-- The last branch: the candidate is settled with the state of the classifier.
unfoldable pub settle : BufferedCandidate → ℕ → DomainError → MigrationItemState → Exec Next
unfolding mark_stable
settle candidate attempts error state = do
  mark_stable
  return
      (Next.done (some (record (failed_update candidate attempts error) { state = state })) false)

module _ (env : Environment) where
  -- `_rpc`: the gateway's answer, or a TimeoutError when the watchdog's 30 seconds are over.
  unfoldable pub rpc : ℕ → ℕ → Exec (Option RpcException)
  rpc job_id ordinal = do
    w ← gets (λ w. w)
    emit (Effect.rpc w.now ordinal)
    wait env job_id (min (env.latency w.waits) rpc_watchdog)
    return
        (if ltb rpc_watchdog (env.latency w.waits) then some timeout_error else env.answer w.waits)

  -- `mark_attempt` and the RPC.
  unfoldable pub send : ℕ → ℕ → Exec (Option RpcException)
  unfolding rpc
  send job_id ordinal = do
    modify (λ w. record w { scheduler = mark_attempt w.scheduler w.now })
    rpc job_id ordinal

  unfoldable pub mark_retry_of : ℕ → BufferedCandidate → ℕ → DomainError → Option ℕ → Exec Unit
  mark_retry_of job_id candidate attempts error next_retry_at = write env job_id (λ _ db.
      mark_retry job_id candidate.ordinal attempts (some error.code) (some error.text) next_retry_at
        db)

  -- The branch of RATE_LIMIT once the scheduler knows the wait, which is over at `until`.
  unfoldable pub wait_until : ℕ → ℕ → ℕ → BufferedCandidate → ℕ → ℕ → DomainError → Exec Next
  unfolding mark_retry_of
  wait_until until job_id account_id candidate attempts transient error = do
    flush env job_id true
    mark_retry_of job_id candidate attempts error (some until)
    set_account env job_id account_id AccountState.waiting_server (some error.text)
    set_job env job_id JobState.waiting_server (record {
      waiting_until = some until;
      checkpoint = some (retry_checkpoint candidate.ordinal);
      clear_waiting = false;
    })
    write env job_id (λ _ db.
        Jobs.add_event job_id "WARN" "FLOOD_WAIT"
          (some (wait_message (or_else error.wait_seconds 0))) candidate.member.telegram_user_id db)
    c ← scheduled_sleep env job_id
    interrupted ← handle_control env c job_id account_id
    if interrupted then return (Next.done none true) else do
      set_job env job_id JobState.running clearing
      set_account env job_id account_id AccountState.busy none
      return (Next.again transient)

  -- The branch of RATE_LIMIT: wait as long as the server says, then try the same candidate again.
  unfoldable pub flood_wait : ℕ → ℕ → BufferedCandidate → ℕ → ℕ → DomainError → Exec Next
  unfolding wait_until
  flood_wait job_id account_id candidate attempts transient error = do
    let duration = 1000 * or_else error.wait_seconds 0
    modify (λ w. record w { scheduler = apply_server_wait w.scheduler w.now duration })
    until ← gets (λ w. utc env w + duration)
    wait_until until job_id account_id candidate attempts transient error

  -- The branch of RATE_LIMIT_INDEFINITE.
  unfoldable pub stop_rate_limited : ℕ → ℕ → BufferedCandidate → ℕ → DomainError → Exec Next
  unfolding mark_retry_of
  stop_rate_limited job_id account_id candidate attempts error = do
    flush env job_id true
    mark_retry_of job_id candidate attempts error none
    set_job env job_id JobState.rate_limited (record {
      waiting_until = none;
      checkpoint = some (retry_checkpoint candidate.ordinal);
      clear_waiting = false;
    })
    set_account env job_id account_id AccountState.error
        (some "Telegram rate limit has no resume time")
    write env job_id (λ _ db.
        Jobs.add_event job_id "WARN" "RATE_LIMIT_INDEFINITE"
          (some (message_text "Telegram did not provide a resume duration. Job paused safely."))
          candidate.member.telegram_user_id db)
    return (Next.done none true)

  -- The branch of `result.pause_job`.
  unfoldable pub pause_candidate : ℕ → ℕ → BufferedCandidate → ℕ → DomainError → Exec Next
  unfolding mark_retry_of account_state_for
  pause_candidate job_id account_id candidate attempts error = do
    flush env job_id true
    mark_retry_of job_id candidate attempts error none
    set_job env job_id JobState.paused (record {
      waiting_until = none;
      checkpoint = some (retry_checkpoint candidate.ordinal);
      clear_waiting = false;
    })
    set_account env job_id account_id (account_state_for error.code) (some error.text)
    return (Next.done none true)

  unfoldable pub retry_after :
      Option ℕ → ℕ → ℕ → BufferedCandidate → ℕ → ℕ → DomainError → Exec Next
  unfolding transient_delay
  retry_after none job_id account_id candidate attempts transient error =
      return (Next.done (some (failed_update candidate attempts error)) false)
  retry_after (some delay) job_id account_id candidate attempts transient error = do
    c ← sleep env job_id delay
    interrupted ← handle_control env c job_id account_id
    if interrupted
        then return (Next.done none true)
        else if is_some (transient_delay (suc transient))
        then return (Next.again (suc transient))
        else return (Next.done (some (failed_update candidate attempts error)) false)

  -- The branch of the transient failures, after `transient` of them.
  unfoldable pub retry_transient : ℕ → ℕ → BufferedCandidate → ℕ → ℕ → DomainError → Exec Next
  unfolding retry_after
  retry_transient job_id account_id candidate attempts transient error =
      retry_after (transient_delay transient) job_id account_id candidate attempts transient error

  -- The tests behind a failed RPC, in the order of the source.
  unfoldable pub on_code :
      InviteResultCode → ℕ → ℕ → BufferedCandidate → ℕ → ℕ → DomainError → Exec Next
  unfolding is_transient
  on_code InviteResultCode.rate_limit job_id account_id candidate attempts transient error =
      flood_wait job_id account_id candidate attempts transient error
  on_code InviteResultCode.rate_limit_indefinite job_id account_id candidate attempts transient
        error =
      stop_rate_limited job_id account_id candidate attempts error
  on_code code job_id account_id candidate attempts transient error =
      let result = classify (some error) in
      if result.pause_job
      then pause_candidate job_id account_id candidate attempts error
      else if result.retry && is_transient code
      then retry_transient job_id account_id candidate attempts transient error
      else settle candidate attempts error result.state

  unfoldable pub on_error : ℕ → ℕ → BufferedCandidate → ℕ → ℕ → DomainError → Exec Next
  unfolding on_code
  on_error job_id account_id candidate attempts transient error =
      on_code error.code job_id account_id candidate attempts transient error
