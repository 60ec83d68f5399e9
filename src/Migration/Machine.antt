-- ===== src/Migration/Machine.antt =====
-- What an executor of src/tms/migration/executor.py acts on: its own fields, the database, the
-- clock and the requests of other threads. An action is a function of this world that returns,
-- raises, or runs out of the fuel of its loops.
pub mod Keeps
use telegramv.Prelude.{
  ℕ, suc, ◌+◌, Bool, true, false, List, [], ◌∷◌, Option, none, some, String, ◌==◌, if◌then◌else◌,
}
use telegramv.Core.{AccountState, JobState, MigrationItemState}
use telegramv.Storage.{Database}
use telegramv.Jobs.{ItemUpdate}
use telegramv.Telegram.ErrorMapper.{RpcException}
use telegramv.Migration.Scheduler.{Scheduler}

pub data Action : Type 0 where
  invite remove : Action

-- request_stop, request_pause and request_resume
pub data Request : Type 0 where
  stop pause resume : Request

-- An RPC of the gateway, at its time and for an item's ordinal, or a published domain event.
pub data Effect : Type 0 where
  rpc : ℕ → ℕ → Effect
  account_changed : ℕ → AccountState → Option String → Effect
  job_changed : ℕ → JobState → Option ℕ → Effect
  item_completed : ℕ → ℕ → MigrationItemState → ℕ → Effect
  migration_completed : ℕ → JobState → Effect

-- The program does not decide these: what the n-th wait of the executor takes beyond the time asked
-- for, the requests that arrive during it, the answer and the latency of an RPC and the failure of
-- a write that it stands for, and how far the wall clock is ahead of the monotonic one.
pub record Environment : Type 0 where
  pub utc_base : ℕ
  pub elapse : ℕ → ℕ
  pub requests : ℕ → List Request
  pub answer : ℕ → Option RpcException
  pub latency : ℕ → ℕ
  pub write_error : ℕ → Option String

pub record World : Type 0 where
  pub db : Database
  pub now : ℕ
  pub waits : ℕ
  pub scheduler : Scheduler
  pub running_job : Option ℕ
  pub stop_event : Bool
  pub pause_event : Bool
  pub result_buffer : List ItemUpdate
  pub last_flush : ℕ
  pub flush_at : Option ℕ
  pub performance_users : ℕ
  -- newest first
  pub trace : List Effect

pub data Outcome (A : Type 0) : Type 0 where
  ok : A → Outcome A
  raised : String → Outcome A
  out_of_fuel : Outcome A

abbrev pub Exec : Type 0 → Type 0
Exec A = World → Outcome A × World

unfoldable pub return : {A : Type 0} → A → Exec A
return a w = (ok a, w)

unfoldable pub raise : {A : Type 0} → String → Exec A
raise error w = (raised error, w)

unfoldable pub starve : {A : Type 0} → Exec A
starve w = (out_of_fuel, w)

abbrev pub continue : {A B : Type 0} → Outcome A → World → (A → Exec B) → Outcome B × World
continue (ok a) w f = f a w
continue (raised error) w f = (raised error, w)
continue out_of_fuel w f = (out_of_fuel, w)

infixl 5 ◌>>=◌ ◌>>◌
unfoldable pub ◌>>=◌ : {A B : Type 0} → Exec A → (A → Exec B) → Exec B
◌>>=◌ m f w = continue (m w).0 (m w).1 f

unfoldable pub ◌>>◌ : {B : Type 0} → Exec Unit → Exec B → Exec B
unfolding ◌>>=◌
m >> k = m >>= λ _. k

unfoldable pub gets : {A : Type 0} → (World → A) → Exec A
gets f w = (ok (f w), w)

unfoldable pub modify : (World → World) → Exec Unit
modify f w = (ok tt, f w)

unfoldable pub emit : Effect → Exec Unit
unfolding modify
emit effect = modify λ w. record w { trace = effect ∷ w.trace }

abbrev pub recover : {A : Type 0} → Outcome A → World → (String → Exec A) → Outcome A × World
recover (ok a) w handler = (ok a, w)
recover (raised error) w handler = handler error w
recover out_of_fuel w handler = (out_of_fuel, w)

-- `try: m except Exception as error: handler(error)`
unfoldable pub catch : {A : Type 0} → Exec A → (String → Exec A) → Exec A
catch m handler w = recover (m w).0 (m w).1 handler

-- `try: m finally: cleanup`, for a cleanup that does not raise.
unfoldable pub finally : {A : Type 0} → Exec A → (World → World) → Exec A
finally m cleanup w = ((m w).0, cleanup (m w).1)
