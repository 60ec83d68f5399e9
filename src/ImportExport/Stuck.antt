-- ===== src/ImportExport/Stuck.antt =====
-- What an exception in src/tms/import_export/service.py leaves of the job, with the commands on jobs
-- and accounts; and the rows of an export.
use telegramv.Prelude.{Option}
use mathlib.Core.Option
use telegramv.Datasets
use telegramv.Jobs
use telegramv.Accounts
use telegramv.Runtime.App.{App}
