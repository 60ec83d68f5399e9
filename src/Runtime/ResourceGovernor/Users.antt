-- ===== src/Runtime/ResourceGovernor/Users.antt =====
-- The performance mode of src/tms/runtime/resource_governor.py over the migrations that use it.
use telegramv.Prelude.{ℕ, suc, ltb, ◌≡◌, refl, arith}
use telegramv.Runtime.ResourceGovernor.{
  ResourceGovernor, init, performance_mode, enable_performance_mode, disable_performance_mode,
}

-- What runs of migrations do to the governor: a run enables the mode once, and disables it once.
pub data Run (max_reads : ℕ) : ℕ → ResourceGovernor → Type 0 where
  started : Run max_reads 0 (init max_reads)
  entered :
      {n : ℕ} {g : ResourceGovernor}
      → Run max_reads n g
      → Run max_reads (suc n) (enable_performance_mode g)
  left :
      {n : ℕ} {g : ResourceGovernor}
      → Run max_reads (suc n) g
      → Run max_reads n (disable_performance_mode g)

Run-performance_users :
    {max_reads n : ℕ} {g : ResourceGovernor} → Run max_reads n g → g.performance_users ≡ n
unfolding init enable_performance_mode disable_performance_mode
Run-performance_users Run.started = refl
Run-performance_users (Run.entered run) = omega (arith, Run-performance_users run)
Run-performance_users (Run.left run) = ground (arith, Run-performance_users run)

-- The performance mode is on exactly while at least one of the runs that enabled it has not disabled
-- it again.
pub Run-performance_mode :
    {max_reads n : ℕ} {g : ResourceGovernor} → Run max_reads n g → performance_mode g ≡ ltb 0 n
unfolding performance_mode
Run-performance_mode run = rw (Run-performance_users run) refl
