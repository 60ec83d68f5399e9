-- ===== src/Migration.antt =====
-- src/tms/migration: the scheduler, the policies and the executor of a migration job.
pub mod CandidateBuffer
pub mod Classifier
pub mod Recovery
pub mod Precheck
pub mod Executor
pub mod Planner
pub mod Machine
pub mod Scheduler
