-- ===== src/Runtime/App/Planning/Stale.antt =====
-- The pre-check that a plan of src/tms/bootstrap.py is made with.
use telegramv.Prelude.{ℕ, none, some, true, false, ◌==◌, ==_iff, ◌≡◌, refl}
use telegramv.Members.{default_spec}
use telegramv.Groups.{GroupContext}
use telegramv.Migration.Planner.{PrecheckResult}
use telegramv.Runtime.Commands.{Answer}
use telegramv.Runtime.StateStore.{update, set_attribute}
use telegramv.Runtime.App.{App, Task, submit, publish, update_state}
use telegramv.Runtime.App.Sources.{select_target}
use telegramv.Runtime.App.Targets.{precheck_done}
use telegramv.Runtime.App.Planning.{plan_action, is_blocked}

-- Where a target that is no basic chat is resolved while a pre-check runs, the end of the pre-check
-- makes both kinds of plan possible for the new target with the members that were found, whichever
-- target they were looked for in, whether the account may invite to the new one, and whether the
-- account is enabled.
pub stale_precheck :
    (account_id job_id local_id source_dataset_id : ℕ) (target : GroupContext)
    (result : PrecheckResult) (app : App)
    → target.local_group_id ≡ some local_id
    → is_blocked "INVITE" target ≡ false
    → (plan_action account_id source_dataset_id none "INVITE"
          (precheck_done job_id result (select_target account_id target app))
        ≡ Answer.accepted (
            submit
              (Task.plan account_id source_dataset_id local_id result default_spec "INVITE")
              (precheck_done job_id result (select_target account_id target app))))
      × (plan_action account_id source_dataset_id none "REMOVE"
            (precheck_done job_id result (select_target account_id target app))
          ≡ Answer.accepted (
              submit
                (Task.plan account_id source_dataset_id local_id result default_spec "REMOVE")
                (precheck_done job_id result (select_target account_id target app))))
unfolding plan_action precheck_done select_target update_state publish submit update set_attribute
stale_precheck account_id job_id local_id source_dataset_id target result app known open_group =
    let same : (account_id == account_id) ≡ true = (==_iff account_id account_id).1 refl in
    (rw (known, same, open_group) refl, rw (known, same) refl)
