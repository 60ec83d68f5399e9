-- ===== src/Tests/Commands.antt =====
-- The commands, the repository's waits, the restart and the pre-check at concrete inputs.
use telegramv.Prelude.{
  ◌≡◌, ◌≢◌, ◌↔◌, refl, true, false, List, [], ◌∷◌, none, some, contains, select, not, ◌==◌,
}
use telegramv.Core.{JobState, MigrationItemState, TargetCoverage}
use telegramv.Storage.{ProvenanceRow, Database, json_get}
use telegramv.Jobs
use telegramv.Jobs.{
  ItemUpdate, account_waiting_until, base_waiting_until, set_state, no_options, get_checkpoint,
  has_nonterminal_jobs, is_waiting_or_paused,
}
use telegramv.Members.{Member}
use telegramv.Members.Repository.{Source}
use telegramv.Migration.Executor.{batch_checkpoint}
use telegramv.Jobs.Items.{update_items_batch}
use telegramv.Jobs.Waits.{pause-waits}
use telegramv.Jobs.Rows.{on_row}
use telegramv.Accounts
use telegramv.Groups
use telegramv.Migration.Scheduler
use telegramv.Migration.Machine.{Action}
use telegramv.Migration.Recovery.{normalize_after_restart}
use telegramv.Migration.Recovery.Restart.{restarted, restart-rows}
use telegramv.Migration.Precheck
use telegramv.Migration.Precheck.{Ending, on_pages, precheck_exact, unavailable_unseen}
use telegramv.Runtime.Commands.{
  Session, Executor, accepted, refused, start_migration, resume_migration, running_executor,
}
use telegramv.Runtime.Commands.Launch.{Started, Resumed, start-Launched, resume-Launched}
use telegramv.Runtime.Commands.Exclusion.{Exclusive, Step, Steps, Steps-Exclusive}
use telegramv.Runtime.Commands.Stuck.{rate_limited_stuck}
use telegramv.Runtime.Commands.Forgotten.{Writes, resume_forgets}
use telegramv.Tests.Fixtures.{session, migration_job, scheduler}

abbrev executor : Action → Executor
executor action = record { job_id = 1; account_id = 1; action = action; scheduler = scheduler }

abbrev with_executor : Session → Action → Session
with_executor s action = record s { executors = executor action ∷ s.executors }

abbrev ready : Session
ready = session JobState.ready none

abbrev paused : Session
paused = session JobState.paused none

started : start_migration 1 1 5000 ready ≡ accepted (with_executor ready Action.remove)
unfolding start_migration Accounts.get Jobs.get Groups.get Scheduler.init json_get get_checkpoint
    account_waiting_until
started = refl

resumed : resume_migration 1 5000 paused ≡ accepted (with_executor paused Action.remove)
unfolding resume_migration Jobs.get Accounts.get Groups.get Scheduler.init json_get get_checkpoint
    account_waiting_until
resumed = refl

start-Launched_example : Started 1 1 5000 ready (with_executor ready Action.remove)
start-Launched_example = start-Launched 1 1 5000 ready (with_executor ready Action.remove) started

resume-Launched_example : Resumed 1 5000 paused (with_executor paused Action.remove)
resume-Launched_example = resume-Launched 1 5000 paused (with_executor paused Action.remove) resumed

Steps-Exclusive_example : Exclusive (with_executor ready Action.remove).executors
Steps-Exclusive_example = Steps-Exclusive ready (with_executor ready Action.remove) refl (
    Steps.next ready ready (with_executor ready Action.remove) (Steps.here ready)
      (Step.start ready (with_executor ready Action.remove) 1 1 5000 started))

abbrev limited : Session
limited = session JobState.rate_limited none

rate_limited_stuck_example :
    (start_migration 1 1 5000 limited ≢ accepted limited)
    × (resume_migration 1 5000 limited ≢ accepted limited)
    × (running_executor 1 limited ≡ refused "Migration job is not currently running")
    × (has_nonterminal_jobs 1 limited.db ≡ true)
    × (Accounts.delete 1 limited.db ≡ none)
unfolding Jobs.get
rate_limited_stuck_example =
    rate_limited_stuck 1 1 1 5000 limited limited (migration_job JobState.rate_limited) refl refl
      refl refl

abbrev update : ItemUpdate
update = record {
  ordinal = 0;
  state = MigrationItemState.success;
  attempts = 1;
  error_code = none;
  error_text = none;
}

abbrev after_flush : Session
after_flush = record paused {
  db = update_items_batch 1 (update ∷ []) (some (batch_checkpoint (update ∷ []))) 1000600 paused.db;
}

resumed_after_flush :
    resume_migration 1 5000 after_flush ≡ accepted (with_executor after_flush Action.invite)
unfolding resume_migration Jobs.get Accounts.get Groups.get Scheduler.init json_get get_checkpoint
    account_waiting_until update_items_batch batch_checkpoint
resumed_after_flush = refl

resume_forgets_example :
    (e : Executor) × ((with_executor after_flush Action.invite).executors ≡ e ∷ paused.executors)
    × (e.action ≡ Action.invite)
resume_forgets_example =
    resume_forgets 1 5000 paused after_flush (with_executor after_flush Action.invite)
      (Writes.flush paused update [] 1000600) resumed_after_flush

abbrev waiting : Database
waiting = (session JobState.waiting_server (some 1009000)).db

pause-waits_example :
    (base_waiting_until 1 (set_state 1 JobState.paused no_options 1000600 waiting)
      ≡ base_waiting_until 1 waiting)
    × (account_waiting_until 1 (set_state 1 JobState.paused no_options 1000600 waiting)
        ≡ account_waiting_until 1
            (record waiting { jobs = select (λ row. not (row.id == 1)) waiting.jobs }))
unfolding is_waiting_or_paused
pause-waits_example = pause-waits 1 1 1000600 waiting ((λ e. refl), tt)

restart-rows_example :
    Jobs.get 1 (normalize_after_restart 2000000 waiting).0
    ≡ on_row (restarted 2000000) (Jobs.get 1 waiting)
restart-rows_example = restart-rows 2000000 waiting 1

abbrev page : List Member
page =
    record {
      telegram_user_id = some 7;
      username = none;
      first_name = none;
      last_name = none;
      phone = none;
      bot = false;
      deleted = false;
      activity_status = none;
      last_seen = none;
      access_hash = none;
    }
    ∷ []

precheck_exact_example :
    (contains (Precheck.run (page ∷ []) Ending.failed).target_ids 7 ≡ on_pages (page ∷ []) 7)
    × (((Precheck.run (page ∷ []) Ending.failed).coverage ≡ TargetCoverage.complete)
        ↔ (Ending.failed ≡ Ending.finished))
precheck_exact_example = precheck_exact (page ∷ []) Ending.failed 7

unavailable_unseen_example : on_pages ([] ∷ []) 7 ≡ false
unfolding Precheck.run
unavailable_unseen_example = unavailable_unseen ([] ∷ []) Ending.failed 7 refl

abbrev source : Source
source = record {
  dataset_id = 1;
  source_group_id = some 1;
  account_id = some 1;
  source_label = none;
}

abbrev provenance : ProvenanceRow
provenance = record {
  dataset_id = 1;
  member_id = 1;
  source_dataset_id = none;
  source_group_id = some 1;
  source_label = none;
}

abbrev found_member : Member
found_member = record {
  telegram_user_id = some 100;
  username = none;
  first_name = none;
  last_name = none;
  phone = none;
  bot = false;
  deleted = false;
  activity_status = none;
  last_seen = none;
  access_hash = none;
}
