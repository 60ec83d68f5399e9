-- ===== src/Runtime/App/Deferral.antt =====
-- Exports while a migration of src/tms/runtime/command_handlers.py runs.
use telegramv.Prelude.{ℕ, suc, String, Option, true, ◌≡◌, refl, ◌∙◌, arith, ltb}
use telegramv.Runtime.ResourceGovernor.{performance_mode}
use telegramv.Runtime.ResourceGovernor.Users.{Run, Run-performance_mode}
use telegramv.Runtime.App.{App, Task, publish}
use telegramv.Runtime.App.Data.{export_dataset, export_job_log, export_job_results, unless_busy}

unless_busy-tasks :
    (name : String) (task : Task) (app : App)
    → performance_mode app.governor ≡ true
    → (unless_busy name task app).tasks ≡ app.tasks
unfolding unless_busy publish
unless_busy-tasks name task app busy = rw busy refl

-- While one migration at least has the performance mode on, no export is submitted.
pub exports_deferred :
    {max_reads : ℕ} {n : ℕ} (app : App) (dataset_id job_id : ℕ) (path : String)
    (account_id : Option ℕ)
    → Run max_reads (suc n) app.governor
    → ((export_dataset dataset_id path account_id app).tasks ≡ app.tasks)
      × ((export_job_log job_id path app).tasks ≡ app.tasks)
      × ((export_job_results job_id path app).tasks ≡ app.tasks)
unfolding export_dataset export_job_log export_job_results
exports_deferred {max_reads} {n} app dataset_id job_id path account_id run =
    let positive : ltb 0 (suc n) ≡ true = ground arith in
    let busy : performance_mode app.governor ≡ true = Run-performance_mode run ∙ positive in
    (
      unless_busy-tasks "export" (Task.export_dataset dataset_id path account_id) app busy,
      unless_busy-tasks "log_export" (Task.export_job_log job_id path) app busy,
      unless_busy-tasks "result_export" (Task.export_job_results job_id path) app busy,
    )
