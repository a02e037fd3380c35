-- ===== src/Health/Quiet.antt =====
-- pkg/telemetry/health_monitor.go: quiet hours, and which alerts are delivered.
use vikram.Base.{
  ℕ, ◌+◌, ◌-◌, ◌%◌, ◌≤◌, ◌<◌, Bool, false, not, ◌&&◌, ◌||◌, ◌≡◌, arith, if◌then◌else◌, ltb, ◌==◌,
}
use vikram.Base.Int.{pos, leb_ℤ, ltb_ℤ}
use vikram.Base.Time.{Time}
use vikram.Health.Alerts.{AlertConfig, is_quiet_hours, hour_of}

hour_of-lt : (now : Time) → hour_of now < 24
unfolding hour_of
hour_of-lt now = omega arith

-- The hour lies in the range from `s` to `e` around the clock.
abbrev pub in_range : ℕ → ℕ → ℕ → Bool
in_range s e h = not (s == e) && ltb ((h + 24 - s) % 24) ((e + 24 - s) % 24)

range_test :
    (s e h : ℕ)
    → s ≤ 23
    → e ≤ 23
    → h < 24
    → (if leb_ℤ (pos s) (pos e) && leb_ℤ (pos e) (pos s)
        then false
        else if ltb_ℤ (pos s) (pos e)
        then leb_ℤ (pos s) (pos h) && ltb_ℤ (pos h) (pos e)
        else (leb_ℤ (pos s) (pos h) || ltb_ℤ (pos h) (pos e)))
      ≡ in_range s e h
range_test s e h hs he hh = ground arith

module _ {F : Type 0} where
  -- For bounds that are hours of the day, it is quiet exactly from the start to before the end around
  -- the clock, never if the two are equal.
  pub is_quiet_hours-in_range :
      (config : AlertConfig F) (s e : ℕ) (now : Time)
      → config.quiet_hours_start ≡ pos s
      → config.quiet_hours_end ≡ pos e
      → s ≤ 23
      → e ≤ 23
      → is_quiet_hours config now ≡ in_range s e (hour_of now)
  unfolding is_quiet_hours
  is_quiet_hours-in_range config s e now hs he ls le =
      rw hs (rw he (range_test s e (hour_of now) ls le (hour_of-lt now)))
