-- ===== src/Runtime/Commands/Launch.antt =====
-- What a resumption that is accepted has seen, and the executor that a start or a resumption launches.
use telegramv.Prelude.{
  ℕ, ◌+◌, ◌-◌, ◌≤◌, ◌≡◌, refl, ◌∙◌, subst, ◌==◌, Bool, true, false, not, ◌∷◌, Option, none, some,
  String, arith, Bool-cases, Option-cases, inl, inr, ltb,
}
use telegramv.Storage.{Database, JobRow, AccountRow, json_get}
use telegramv.Jobs
use telegramv.Jobs.{account_waiting_until, get_checkpoint}
use telegramv.Jobs.Waits.{Ends, WaitsEnd, account_waiting_until-WaitsEnd}
use telegramv.Accounts
use telegramv.Groups
use telegramv.Migration.Scheduler
use telegramv.Migration.Scheduler.{Scheduler, apply_server_wait, remaining_delay}
use telegramv.Migration.Scheduler.Cadence.{IsValid, init-IsValid, wait-IsValid}
use telegramv.Runtime.Commands.{
  Session, Executor, Answer, accepted, refused, refuse_if, require, and_then, utc, launch,
  new_executor, apply_account_server_wait, remaining_wait, action_of, start_migration,
  resume_migration, is_running, is_migration, is_ready, is_resumable, require_enabled_account,
  start_row, resume_row,
}

accepted_injective : {A : Type 0} (a b : A) → accepted a ≡ accepted b → a ≡ b
accepted_injective a b h = ground arith

pub refuse_if-accepted :
    {A : Type 0} (b : Bool) (error : String) (rest : Answer A) (a : A)
    → refuse_if b error rest ≡ accepted a
    → (b ≡ false) × (rest ≡ accepted a)
refuse_if-accepted b error rest a h = ground arith

pub require-accepted :
    {A B : Type 0} (o : Option A) (error : String) (f : A → Answer B) (b : B)
    → require o error f ≡ accepted b
    → (a : A) × (o ≡ some a) × (f a ≡ accepted b)
require-accepted none error f b h = ground arith
require-accepted (some a) error f b h = (a, refl, h)

and_then-accepted :
    {A B : Type 0} (m : Answer A) (f : A → Answer B) (b : B)
    → and_then m f ≡ accepted b
    → (a : A) × (m ≡ accepted a) × (f a ≡ accepted b)
and_then-accepted (accepted a) f b h = (a, refl, h)
and_then-accepted (refused error) f b h = ground arith

pub enabled-accepted :
    {A : Type 0} (account_id : ℕ) (db : Database) (rest : Answer A) (a : A)
    → require_enabled_account account_id db rest ≡ accepted a
    → ((account : AccountRow) × (Accounts.get account_id db ≡ some account)
        × (account.enabled ≡ true))
      × (rest ≡ accepted a)
unfolding require_enabled_account
enabled-accepted account_id db rest a h =
    let (account, got, k) = require-accepted (Accounts.get account_id db) _ _ a h in
    let passed = refuse_if-accepted (not account.enabled) _ rest a k in
    ((account, got, ground (arith, passed.0)), passed.1)

-- What a launch adds to a session.
pub record Launched (job_id account_id interval : ℕ) (s s' : Session) : Type 0 where
  pub executor : Executor
  pub added : s'.executors ≡ executor ∷ s.executors
  pub same_db : s'.db ≡ s.db
  pub job : executor.job_id ≡ job_id
  pub account : executor.account_id ≡ account_id
  pub action : action_of (json_get "action" (get_checkpoint job_id s.db)) ≡ some executor.action
  pub target : executor.scheduler.target_interval ≡ interval
  pub valid : IsValid executor.scheduler
  pub gated : WaitsEnd (utc s + remaining_delay executor.scheduler s.now) account_id s.db.jobs

init_target :
    (interval : ℕ) (scheduler : Scheduler)
    → Scheduler.init interval ≡ some scheduler
    → scheduler.target_interval ≡ interval
unfolding Scheduler.init
init_target interval scheduler h = ground arith

gate-Ends :
    (scheduler : Scheduler) (account_id : ℕ) (s : Session)
    → Ends
        (utc s + remaining_delay (apply_account_server_wait scheduler account_id s) s.now)
        (account_waiting_until account_id s.db)
unfolding apply_account_server_wait remaining_wait remaining_delay apply_server_wait
gate-Ends scheduler account_id s = elim (Option-cases (account_waiting_until account_id s.db)) [
  | inl e ↦ rw e tt
  | inr (until, e) ↦ elim (Bool-cases (ltb 0 (until - (s.utc_base + s.now)))) [
    | inl k ↦ rw (e, k) (omega arith)
    | inr k ↦ let past : until ≤ s.utc_base + s.now = ground arith in rw (e, k) (omega arith)
  ]
]

gate-IsValid :
    (scheduler : Scheduler) (account_id : ℕ) (s : Session)
    → IsValid scheduler
    → IsValid (apply_account_server_wait scheduler account_id s)
      × ((apply_account_server_wait scheduler account_id s).target_interval
          ≡ scheduler.target_interval)
unfolding apply_account_server_wait apply_server_wait
gate-IsValid scheduler account_id s valid =
    let wait = remaining_wait (account_waiting_until account_id s.db) (utc s) in
    elim (Bool-cases (ltb 0 wait)) [
      | inl e ↦ rw e (wait-IsValid scheduler s.now wait valid, refl)
      | inr e ↦ rw e (valid, refl)
    ]

pub launch-Launched :
    (job_id account_id interval : ℕ) (s s' : Session)
    → launch job_id account_id interval s ≡ accepted s'
    → Launched job_id account_id interval s s'
unfolding launch new_executor
launch-Launched job_id account_id interval s s' h =
    let (e, made, k) = and_then-accepted (new_executor job_id account_id interval s) _ s' h in
    let (scheduler, init_eq, k₂) = require-accepted (Scheduler.init interval) _ _ e made in
    let (action, action_eq, k₃) =
      require-accepted (action_of (json_get "action" (get_checkpoint job_id s.db))) _ _ e k₂ in
    let e_eq = accepted_injective _ e k₃ in
    let s_eq = accepted_injective _ s' k in
    subst (Launched job_id account_id interval s) s_eq (
      subst
        (λ x. Launched job_id account_id interval s (record s {
          executors =
              record x { scheduler = apply_account_server_wait x.scheduler account_id s }
              ∷ s.executors;
        }))
        e_eq
        (record {
          executor = record {
            job_id = job_id;
            account_id = account_id;
            action = action;
            scheduler = apply_account_server_wait scheduler account_id s;
          };
          added = refl;
          same_db = refl;
          job = refl;
          account = refl;
          action = action_eq;
          target =
              (gate-IsValid scheduler account_id s (init-IsValid interval scheduler init_eq)).1
              ∙ init_target interval scheduler init_eq;
          valid = (gate-IsValid scheduler account_id s (init-IsValid interval scheduler init_eq)).0;
          gated =
              account_waiting_until-WaitsEnd account_id _ s.db (gate-Ends scheduler account_id s);
        }))

-- What an accepted resumption and an accepted start have found, and what they did.
abbrev pub Resumed : ℕ → ℕ → Session → Session → Type 0
Resumed job_id interval s s' =
    (is_running job_id s.executors ≡ false)
    × (row : JobRow) × (Jobs.get job_id s.db ≡ some row)
    × (is_migration row ≡ true)
    × (is_resumable row ≡ true)
    × (account_id : ℕ) × (row.account_id ≡ some account_id)
    × ((account : AccountRow) × (Accounts.get account_id s.db ≡ some account)
        × (account.enabled ≡ true))
    × Launched job_id account_id interval s s'

abbrev pub Started : ℕ → ℕ → ℕ → Session → Session → Type 0
Started job_id account_id interval s s' =
    (is_running job_id s.executors ≡ false)
    × (row : JobRow) × (Jobs.get job_id s.db ≡ some row)
    × (is_migration row ≡ true)
    × (is_ready row ≡ true)
    × (row.account_id ≡ some account_id)
    × ((account : AccountRow) × (Accounts.get account_id s.db ≡ some account)
        × (account.enabled ≡ true))
    × Launched job_id account_id interval s s'

-- A resumption that is accepted is of a paused or waiting migration job of an enabled account that
-- no executor runs. It adds one executor for it and leaves the database alone. The executor has the
-- interval that was asked for as its target and stays within the limits, does the action of the
-- job's checkpoint, and its first attempt is not due before the deadline of any job of the account
-- that waits for the server.
pub resume-Launched :
    (job_id interval : ℕ) (s s' : Session)
    → resume_migration job_id interval s ≡ accepted s'
    → Resumed job_id interval s s'
unfolding resume_migration resume_row
resume-Launched job_id interval s s' h =
    let (idle, h₁) = refuse_if-accepted (is_running job_id s.executors) _ _ s' h in
    let (row, got, h₂) = require-accepted (Jobs.get job_id s.db) _ _ s' h₁ in
    let (kind, h₃) = refuse_if-accepted (not (is_migration row)) _ _ s' h₂ in
    let (state, h₄) = refuse_if-accepted (not (is_resumable row)) _ _ s' h₃ in
    let (account_id, owner, h₅) = require-accepted row.account_id _ _ s' h₄ in
    let (group_id, group_eq, h₆) = require-accepted row.target_group_id _ _ s' h₅ in
    let (enabled, h₇) = enabled-accepted account_id s.db _ s' h₆ in
    let (target, target_eq, h₈) =
      require-accepted (Groups.get group_id (some account_id) s.db) _ _ s' h₇ in
    (
      idle,
      row,
      got,
      ground (arith, kind),
      ground (arith, state),
      account_id,
      owner,
      enabled,
      launch-Launched job_id account_id interval s s' h₈,
    )

-- A start that is accepted is of a job in the state READY that belongs to the enabled account and
-- that no executor runs, and launches an executor as a resumption does.
pub start-Launched :
    (job_id account_id interval : ℕ) (s s' : Session)
    → start_migration job_id account_id interval s ≡ accepted s'
    → Started job_id account_id interval s s'
unfolding start_migration start_row
start-Launched job_id account_id interval s s' h =
    let (idle, h₁) = refuse_if-accepted (is_running job_id s.executors) _ _ s' h in
    let (enabled, h₂) = enabled-accepted account_id s.db _ s' h₁ in
    let (row, got, h₃) = require-accepted (Jobs.get job_id s.db) _ _ s' h₂ in
    let (kind, h₄) = refuse_if-accepted (not (is_migration row)) _ _ s' h₃ in
    let (state, h₅) = refuse_if-accepted (not (is_ready row)) _ _ s' h₄ in
    let (owner, owner_eq, h₆) = require-accepted row.account_id _ _ s' h₅ in
    let (same, h₇) = refuse_if-accepted (not (owner == account_id)) _ _ s' h₆ in
    let (group_id, group_eq, h₈) = require-accepted row.target_group_id _ _ s' h₇ in
    let (target, target_eq, h₉) =
      require-accepted (Groups.get group_id (some account_id) s.db) _ _ s' h₈ in
    (
      idle,
      row,
      got,
      ground (arith, kind),
      ground (arith, state),
      rw owner_eq (ground (arith, same)),
      enabled,
      launch-Launched job_id account_id interval s s' h₉,
    )
