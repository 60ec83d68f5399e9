-- ===== src/Runtime/App/Jobs.antt =====
-- The commands on jobs of src/tms/runtime/command_handlers.py: `resume_job`, and what a refused and
-- an accepted command leave of the migrations' session.
use telegramv.Prelude.{ℕ}
use telegramv.Core.{JobType}
use telegramv.Jobs as JobRepository
use telegramv.Runtime.Commands.{Answer, Session, require, resume_migration}
use telegramv.Runtime.App.{App}
use telegramv.Runtime.App.Scans.{resume_scan}

-- A migration command on the session of the context.
unfoldable pub on_session : (Session → Answer Session) → App → Answer App
on_session command app = elim (command app.session) [
  | Answer.accepted session ↦ Answer.accepted (record app { session = session })
  | Answer.refused error ↦ Answer.refused error
]

by_type : JobType → ℕ → ℕ → App → Answer App
unfolding on_session
by_type JobType.migration job_id interval app = on_session (resume_migration job_id interval) app
by_type JobType.scan job_id interval app = resume_scan job_id app
by_type JobType.target_scan job_id interval app =
    Answer.refused "Job type TARGET_SCAN is not resumable"
by_type JobType.remove job_id interval app = Answer.refused "Job type REMOVE is not resumable"
by_type JobType.import_ job_id interval app = Answer.refused "Job type IMPORT is not resumable"
by_type JobType.export job_id interval app = Answer.refused "Job type EXPORT is not resumable"

unfoldable pub resume_job : ℕ → ℕ → App → Answer App
unfolding by_type
resume_job job_id interval app =
    require (JobRepository.get job_id app.session.db) "Job not found"
      (λ row. by_type row.job_type job_id interval app)
