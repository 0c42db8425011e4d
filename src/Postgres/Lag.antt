-- ===== src/Postgres/Lag.antt =====
-- internal/postgres/lag.go: the replication lag. Times are milliseconds, and 0 is the zero time. The
-- gauge that `Publish` sets is left out.
use excalibase_watcher.Base.{ℕ, ◌-◌, Bool, true, false, ◌||◌, ◌==◌, if◌then◌else◌}

pub record LagTracker : Type 0 where
  pub last_commit : ℕ
  pub caught_up : Bool

abbrev pub new_lag_tracker : LagTracker
new_lag_tracker = record { last_commit = 0; caught_up = false }

unfoldable pub observe_commit : ℕ → LagTracker → LagTracker
observe_commit commit_ts t = record { last_commit = commit_ts; caught_up = false }

unfoldable pub observe_caught_up : LagTracker → LagTracker
observe_caught_up t = record t { caught_up = true }

-- `Lag`; a commit time ahead of the clock gives 0, as the subtraction does.
unfoldable pub lag : LagTracker → ℕ → ℕ
lag t now = if t.caught_up || t.last_commit == 0 then 0 else now - t.last_commit
