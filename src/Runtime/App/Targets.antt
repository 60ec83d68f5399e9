-- ===== src/Runtime/App/Targets.antt =====
-- The pre-check of src/tms/runtime/command_handlers.py. What src/tms/migration/precheck.py comes to is
-- an argument of the task's end; the writes of the task do not fail.
use telegramv.Prelude.{
  ℕ, pos, [], ◌∷◌, Option, none, some, String, string_append, show, false, not, length,
}
use telegramv.Core.{Result, Failure, JobState, JobType, TargetCoverage}
use telegramv.Storage.{Database, Json, JsonValue, Message}
use telegramv.Groups.{GroupContext}
use telegramv.Jobs as JobRepository
use telegramv.Jobs.{Job, StateOptions}
use telegramv.Migration.Planner.{PrecheckResult}
use telegramv.Runtime.Commands.{Answer, require, refuse_if, utc}
use telegramv.Runtime.StateStore.{Change}
use telegramv.Runtime.App.{
  App, Task, Value, publish, submit, update_state, done, transact, with_db, enabled_account,
}
use telegramv.Runtime.App.Scans.{same_account}

unfoldable pub precheck_target : ℕ → App → Answer App
unfolding submit enabled_account
precheck_target account_id app = enabled_account account_id app (λ _.
    require app.state.target_group "Resolve target group first" (λ target.
      require target.local_group_id "Resolve target group first" (λ _.
        refuse_if (not (same_account app.state.target_account_id account_id))
          "Target group was resolved with a different account; resolve it again"
          (Answer.accepted (submit (Task.prepare_precheck account_id target) app)))))

abbrev precheck_job : ℕ → GroupContext → Job
precheck_job account_id target = record {
  job_type = JobType.target_scan;
  state = JobState.running;
  account_id = some account_id;
  source_dataset_id = none;
  target_group_id = target.local_group_id;
  total = 0;
}

-- `prepare`, and `start`, which submits the operation
unfoldable pub precheck_prepared : ℕ → GroupContext → Option Failure → App → App
unfolding transact submit
precheck_prepared account_id target fault app =
    transact "migration.precheck.prepare"
      (λ job_id app'. submit (Task.precheck job_id account_id target) app') fault
      (JobRepository.create (precheck_job account_id target)) app

abbrev pub coverage_name : TargetCoverage → String
coverage_name TargetCoverage.complete = "COMPLETE"
coverage_name TargetCoverage.partial = "PARTIAL"
coverage_name TargetCoverage.unavailable = "UNAVAILABLE"

abbrev leaving : Json → StateOptions
leaving checkpoint = record {
  waiting_until = none;
  checkpoint = some checkpoint;
  clear_waiting = false;
}

abbrev counted : PrecheckResult → String
counted result = string_append "coverage=" (
    string_append (coverage_name result.coverage)
      (string_append " target_count=" (show (length result.target_ids))))

-- What `operation` does after the pre-check.
close_precheck : ℕ → ℕ → Result PrecheckResult → Database → Database
close_precheck job_id now (Result.returned result) db =
    JobRepository.add_event job_id "INFO" "TARGET_PRECHECK_COMPLETED"
      (some (Message.message_text (counted result))) none
      (JobRepository.set_state job_id JobState.completed
        (leaving (
          ("coverage", JsonValue.text (coverage_name result.coverage))
          ∷ ("target_count", JsonValue.number (pos (length result.target_ids)))
          ∷ []))
        now db)
close_precheck job_id now (Result.raised e) db =
    JobRepository.add_event job_id "ERROR" "TARGET_PRECHECK_FAILED"
      (some (Message.message_text e.text)) none
      (JobRepository.set_state job_id JobState.failed
        (leaving (("error", JsonValue.text e.text) ∷ [])) now db)

-- `operation`
unfoldable pub run_precheck : ℕ → GroupContext → ℕ → Result PrecheckResult → Database → Database
unfolding close_precheck
run_precheck job_id target now answer db = close_precheck job_id now answer (
    JobRepository.add_event job_id "INFO" "TARGET_PRECHECK_STARTED"
      (some (Message.message_text (string_append "target=" (show target.telegram_id)))) none db)

unfoldable pub precheck_done : ℕ → PrecheckResult → App → App
unfolding publish update_state
precheck_done job_id result app =
    publish "TargetPrecheckCompleted"
      (("job_id", Value.number job_id)
        ∷ ("coverage", Value.words (coverage_name result.coverage))
        ∷ ("target_count", Value.number (length result.target_ids))
        ∷ [])
      (update_state (Change.precheck (some result) ∷ []) app)

unfoldable pub precheck_finished : ℕ → GroupContext → Result PrecheckResult → App → App
unfolding done with_db run_precheck precheck_done
precheck_finished job_id target answer app =
    done "migration.precheck" (precheck_done job_id) answer
      (with_db (run_precheck job_id target (utc app.session) answer app.session.db) app)
