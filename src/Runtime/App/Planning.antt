-- ===== src/Runtime/App/Planning.antt =====
-- The plans of src/tms/runtime/command_handlers.py and `plan_action` of src/tms/bootstrap.py, which is
-- registered in the place of `plan_migration`. The planner is called with the default filter where none
-- is given. The user interface gives the action in capitals.
pub mod Stale
use telegramv.Prelude.{
  ℕ, List, [], ◌∷◌, Option, none, some, String, codes, lower, text_eq, Bool, true, false, not, ◌&&◌,
  or_else, if◌then◌else◌,
}
use telegramv.Core.{Result, Failure, failure}
use telegramv.Storage.{Database}
use telegramv.Members.{FilterSpec, default_spec}
use telegramv.Groups.{GroupContext}
use telegramv.Migration.Planner.{
  PrecheckResult, MigrationPlanSummary, Plan, create_plan, create_remove_plan,
}
use telegramv.Runtime.Commands.{Answer, require, refuse_if}
use telegramv.Runtime.StateStore.{Change}
use telegramv.Runtime.App.{
  App, Task, Value, publish, submit, update_state, done, with_db, enabled_account,
}
use telegramv.Runtime.App.Scans.{same_account}

-- `plan_migration` of the handlers
unfoldable pub plan_migration : ℕ → ℕ → Option FilterSpec → App → Answer App
unfolding submit enabled_account
plan_migration account_id source_dataset_id filter_spec app = enabled_account account_id app (λ _.
    require app.state.target_group "Resolve target group first" (λ target.
      require target.local_group_id "Resolve target group first" (λ target_group_id.
        refuse_if (not (same_account app.state.target_account_id account_id))
          "Target group/pre-check belongs to a different account"
          (require app.state.precheck "Run target pre-check first" (λ precheck.
            refuse_if (not target.can_invite)
              "Selected account has no invite permission in target group"
              (Answer.accepted (
                submit
                  (Task.plan account_id source_dataset_id target_group_id precheck
                    (or_else filter_spec default_spec) "INVITE")
                  app)))))))

same_word : String → String → Bool
same_word a b = text_eq (lower (codes a)) (lower (codes b))

abbrev unverified : String
unverified = "Không thể xác minh thành viên group đích để tạo kế hoạch xóa an toàn."

abbrev not_checked : String
not_checked = "Hãy kiểm tra group đích trước khi tạo kế hoạch."

-- A basic chat is no target of an invitation.
unfoldable pub is_blocked : String → GroupContext → Bool
unfolding same_word
is_blocked action target = same_word action "INVITE" && same_word target.group_type "chat"

unfoldable pub plan_action : ℕ → ℕ → Option FilterSpec → String → App → Answer App
unfolding submit is_blocked
plan_action account_id source_dataset_id filter_spec action app =
    require app.state.target_group not_checked (λ target.
      require target.local_group_id not_checked (λ target_group_id.
        require app.state.precheck not_checked (λ precheck.
          refuse_if (not (same_account app.state.target_account_id account_id))
            "Group đích được kiểm tra bằng tài khoản khác."
            (refuse_if (is_blocked action target)
              "Basic Chat bị chặn batch Add theo chính sách V1.2. Hãy dùng Megagroup/Supergroup."
              (Answer.accepted (
                submit
                  (Task.plan account_id source_dataset_id target_group_id precheck
                    (or_else filter_spec default_spec) action)
                  app))))))

-- `work` of `plan_action`
unfoldable pub run_plan : ℕ → ℕ → ℕ → PrecheckResult → FilterSpec → String → Database → Result Plan
unfolding same_word
run_plan account_id source_dataset_id target_group_id precheck spec action db =
    if same_word action "REMOVE"
    then elim (create_remove_plan account_id source_dataset_id target_group_id precheck spec db) [
      | none ↦ Result.raised (failure "RuntimeError" unverified)
      | some plan ↦ Result.returned plan
    ]
    else Result.returned (create_plan account_id source_dataset_id target_group_id precheck spec db)

-- `done` of `plan_action`
unfoldable pub plan_ready : String → Plan → App → App
unfolding publish update_state with_db
plan_ready action plan app =
    publish "MigrationPlanReady"
      (("job_id", Value.number plan.job_id)
        ∷ ("summary", Value.summary plan.summary)
        ∷ ("action", Value.words action)
        ∷ [])
      (update_state
        (Change.migration_job_id (some plan.job_id) ∷ Change.plan_summary (some plan.summary) ∷ [])
        (with_db plan.db app))

unfoldable pub planned : ℕ → ℕ → ℕ → PrecheckResult → FilterSpec → String → App → App
unfolding done run_plan plan_ready
planned account_id source_dataset_id target_group_id precheck spec action app =
    done "migration.plan" (plan_ready action)
      (run_plan account_id source_dataset_id target_group_id precheck spec action app.session.db)
      app
