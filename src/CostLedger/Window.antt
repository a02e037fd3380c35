-- ===== src/CostLedger/Window.antt =====
-- pkg/costledger/store.go, computeDailyStart: the window of a day.
use vikram.Base.{ℕ, ◌+◌, ◌*◌, ◌-◌, ◌/◌, ◌≤◌, ◌<◌, ◌≡◌, arith, if◌then◌else◌}
use vikram.Base.Time.{Time, before}
use vikram.CostLedger.{compute_daily_start, day, hour}

-- From the second day on, for a reset hour of the day, the window starts at or before the time, less
-- than a day before it, and at the reset hour of some day.
pub compute_daily_start_lem :
    (reset_hour : ℕ) (now : Time)
    → reset_hour ≤ 23
    → day ≤ now
    → (compute_daily_start reset_hour now ≤ now)
      × (now < compute_daily_start reset_hour now + day)
      × (n : ℕ) × (compute_daily_start reset_hour now ≡ n * day + reset_hour * hour)
unfolding compute_daily_start
compute_daily_start_lem reset_hour now h later = (
  ground arith,
  ground arith,
  if before now (now / day * day + reset_hour * hour) then now / day - 1 else now / day,
  ground arith,
)
