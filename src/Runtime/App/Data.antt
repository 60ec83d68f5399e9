-- ===== src/Runtime/App/Data.antt =====
-- The commands on datasets and files of src/tms/runtime/command_handlers.py.
use telegramv.Prelude.{ℕ, [], ◌∷◌, Option, none, some, String, if◌then◌else◌}
use telegramv.Core.{Result, failure}
use telegramv.Datasets.Service.{combine}
use telegramv.Runtime.StateStore.{Change}
use telegramv.Runtime.ResourceGovernor.{performance_mode}
use telegramv.Runtime.App.{App, Task, Value, publish, submit, update_state, done, with_db}

unfoldable pub import_dataset : String → String → Option ℕ → App → App
unfolding submit
import_dataset path name account_id app = submit (Task.import_dataset path name account_id) app

unfoldable pub combine_dataset : String → ℕ → ℕ → String → App → App
unfolding submit
combine_dataset name a_id b_id operation app =
    submit (Task.combine_dataset name a_id b_id operation) app

-- The new dataset becomes the source.
unfoldable pub dataset_combined : String → ℕ → ℕ → String → App → App
unfolding done with_db publish update_state
dataset_combined name a_id b_id operation app =
    done "dataset.combine"
      (λ combined app'.
        publish "DatasetCreated" (("dataset_id", Value.number combined.1) ∷ []) (
          update_state (Change.source_dataset_id (some combined.1) ∷ []) (with_db combined.0 app')))
      (elim (combine name a_id b_id operation app.session.db) [
        | none ↦
            Result.raised
              (failure "ValueError" "Operation must be UNION, INTERSECTION or DIFFERENCE")
        | some combined ↦ Result.returned combined
      ])
      app

unfoldable pub select_dataset : ℕ → App → App
unfolding publish update_state
select_dataset dataset_id app =
    publish "ActiveDatasetChanged" (("dataset_id", Value.number dataset_id) ∷ [])
      (update_state (Change.source_dataset_id (some dataset_id) ∷ []) app)

-- A task that writes a file is put off while a migration runs.
unfoldable pub unless_busy : String → Task → App → App
unfolding publish submit performance_mode
unless_busy task_name task app =
    if performance_mode app.governor
    then publish "BackgroundTaskDeferred"
        (("task", Value.words task_name)
          ∷ ("reason", Value.words "Migration Performance Mode is active")
          ∷ [])
        app
    else submit task app

unfoldable pub export_dataset : ℕ → String → Option ℕ → App → App
unfolding unless_busy
export_dataset dataset_id path account_id app =
    unless_busy "export" (Task.export_dataset dataset_id path account_id) app

unfoldable pub export_job_log : ℕ → String → App → App
unfolding unless_busy
export_job_log job_id path app = unless_busy "log_export" (Task.export_job_log job_id path) app

unfoldable pub log_exported : ℕ → String → Result Unit → App → App
unfolding done publish
log_exported job_id path result app =
    done "job.export_log"
      (λ _ app'.
        publish "LogExportCompleted"
          (("job_id", Value.number job_id) ∷ ("path", Value.words path) ∷ []) app')
      result app

unfoldable pub export_job_results : ℕ → String → App → App
unfolding unless_busy
export_job_results job_id path app =
    unless_busy "result_export" (Task.export_job_results job_id path) app

unfoldable pub results_exported : ℕ → String → Result Unit → App → App
unfolding done publish
results_exported job_id path result app =
    done "job.export_results"
      (λ _ app'.
        publish "ResultExportCompleted"
          (("job_id", Value.number job_id) ∷ ("path", Value.words path) ∷ []) app')
      result app
