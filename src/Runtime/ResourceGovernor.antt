-- ===== src/Runtime/ResourceGovernor.antt =====
-- src/tms/runtime/resource_governor.py: the performance mode. Its locks and its semaphore are those
-- of asyncio.
pub mod Users
use telegramv.Prelude.{ℕ, ◌+◌, ◌-◌, max, Bool, ltb}

pub record ResourceGovernor : Type 0 where
  pub max_reads : ℕ
  pub performance_users : ℕ

unfoldable pub init : ℕ → ResourceGovernor
init max_reads = record { max_reads = max 1 max_reads; performance_users = 0 }

unfoldable pub performance_mode : ResourceGovernor → Bool
performance_mode g = ltb 0 g.performance_users

unfoldable pub enable_performance_mode : ResourceGovernor → ResourceGovernor
enable_performance_mode g = record g { performance_users = g.performance_users + 1 }

unfoldable pub disable_performance_mode : ResourceGovernor → ResourceGovernor
disable_performance_mode g = record g { performance_users = max 0 (g.performance_users - 1) }
