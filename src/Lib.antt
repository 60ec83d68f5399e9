-- ===== src/Lib.antt =====
-- Telegram Migration Studio: how members of one Telegram group are migrated to another.
--
-- The program keeps everything in a SQLite database that one thread writes. A plan selects the
-- members of a dataset into the items of a job; an executor on the network thread takes the items
-- one by one, sends an RPC for each, and keeps to the cadence of its scheduler and to the waits that
-- Telegram imposes; commands of the user interface start, pause, resume and stop executors; a
-- restart makes the jobs that were interrupted resumable. The package is src/tms; every path below
-- is relative to it.
--
--   Prelude      shared names, lists, texts and numbers
--   Core         core/enums.py, core/constants.py, core/errors.py, core/events.py
--   Storage      storage/schema.sql: the rows of the tables and the database of their lists
--   Jobs         jobs/*.py: the job repository; Jobs.Items for the items of a migration, Jobs.Waits,
--                Jobs.Rows and Jobs.Checkpoints for what its operations do to each other
--   Accounts     accounts/repository.py and accounts/v12_repository.py
--   Groups       groups/models.py and groups/repository.py; Groups.References for groups/service.py
--   Members      members/models.py and members/filter_spec.py; Members.Repository and its child
--                Paging are members/repository.py
--   Datasets     datasets/*.py: the repository, Engines, and Service with what it does to Keys, Sets
--                and Counts
--   ImportExport import_export/service.py over the rows of a file
--   Telegram     telegram/error_mapper.py, telegram/peer_cache.py, AuthService for
--                telegram/auth_service.py, ParticipantScanner for
--                telegram/participant_scanner.py, and Gateway for telethon_gateway.py and
--                member_action_gateway.py in telegram, with Gateway.Groups for its groups
--   Migration    migration/*.py: Scheduler, Classifier, CandidateBuffer, Planner, Precheck, Recovery;
--                Machine is what an executor acts on, and Executor, Executor.Attempt and Executor.Run
--                are executor.py and v12_executor.py
--   Runtime      Commands is the start, pause, stop and resume of a migration in
--                runtime/command_handlers.py with new_executor of bootstrap.py, App and its children
--                are the other commands, with plan_action of bootstrap.py and accounts/service.py;
--                DbWriter, EventAggregator, EventBus, CommandBus, ResourceGovernor and StateStore
--                are the files of these names
--   Tests        the theorems at concrete inputs
--
-- An operation of a repository is the transaction that it hands to the writer, a function of the
-- database, whose unique indexes are those of storage/schema.sql and storage/database.py. A task
-- of the writer says whether its caller has cancelled its future by the end of its batch. The
-- executor is a function of a world (its fields, the database, the time, the trace of its RPCs and
-- events) that returns, raises or runs out of fuel. What the program does not decide is an
-- Environment: how long each wait takes, the requests that arrive during it, the answer and the
-- latency of each RPC, and which writes fail. Each await of the source is a wait of the model, at
-- which time passes, requests arrive and a delayed flush that is due is made.
--
-- A command of Runtime.App is refused, or accepted with the task that it submits; the end of a task
-- is an operation of its own, which takes what Telegram or a file answered, so that commands and
-- ends of tasks may stand in any order.
--
-- Times are whole milliseconds of the monotonic clock; the wall clock is ahead of it by a constant.
-- The clock is the RealClock of the application. The texts that the program lowers are ASCII. The
-- fuel of a sleep is its length and one more, for waits of a millisecond at least; the fuel of the
-- loops over candidates and attempts is an argument, since Telegram may answer with a wait for ever.
--
-- Not modelled: the Telethon client and the client manager, whose answers are arguments; other
-- writers of the database during a run; the prefetch of candidates is read when it is submitted;
-- metrics, threads, locks, the formats of files, configuration and the user interface; the shutdown's
-- wait for the executors; the normalisation of members, and the filter engine, which
-- nothing calls.
pub mod Prelude
pub mod Core
pub mod Storage
pub mod Jobs
pub mod Accounts
pub mod Groups
pub mod Telegram
pub mod Members
pub mod Datasets
pub mod ImportExport
pub mod Migration
pub mod Runtime
pub mod Tests
