-- ===== src/Health/Examples.antt =====
-- Runs of pkg/telemetry/health_monitor.go with thousandths as numbers.
use vikram.Base.{
  ℕ, suc, ◌*◌, ◌≡◌, refl, true, false, not, ◌&&◌, List, [], ◌∷◌, ◌=s=◌, arith, if◌then◌else◌,
}
use vikram.Base.Float.{thousandths}
use vikram.Base.Int.{pos, leb_ℤ}
use vikram.Base.Time.{Time, minute}
use vikram.Health.{default_alert_config, succeeded}
use vikram.Health.Alerts.{
  AlertConfig, TelemetryEvent, HealthMonitor, bool_value, text_value, int_value, is_quiet_hours,
  hour_of, is_muted, provider_of, provider_down, critical, unreachable,
}
use vikram.Health.Quiet.{in_range, is_quiet_hours-in_range}
use vikram.Health.Failures.{history, streak, history-notified}

abbrev config : AlertConfig ℕ
config = record (default_alert_config thousandths) {
  quiet_hours_start = pos 22;
  quiet_hours_end = pos 6;
}

abbrev failure : TelemetryEvent ℕ
failure = record {
  timestamp = 5000;
  attributes =
      ("success", bool_value false)
      ∷ ("provider", text_value "azure")
      ∷ ("latency_ms", int_value (pos 900))
      ∷ [];
}

abbrev two_failures : List (Time × TelemetryEvent ℕ)
two_failures = (5000, failure) ∷ (5000, failure) ∷ []

is_quiet_hours-in_range_example :
    is_quiet_hours config 90_000_000_000_000 ≡ in_range 22 6 (hour_of 90_000_000_000_000)
unfolding default_alert_config
is_quiet_hours-in_range_example =
    is_quiet_hours-in_range config 22 6 90_000_000_000_000 refl refl (omega arith) (omega arith)

abbrev mixed : HealthMonitor ℕ
mixed = record {
  config = config;
  error_window =
      record { timestamp = 5; success = true }
      ∷ record { timestamp = 70 * minute; success = false }
      ∷ [];
  latency_window = record { timestamp = 5; latency_ms = 20 } ∷ [];
  provider_failures = [];
  notified = [];
}

history-notified_example :
    (history thousandths config ((5000, failure) ∷ two_failures)).notified ≡ (
      if not (provider_of failure =s= "")
        && not (succeeded thousandths failure)
        && leb_ℤ config.provider_down_attempts
            (pos (suc (streak thousandths config (provider_of failure) two_failures)))
        && not (is_muted provider_down config)
      then record {
        kind = provider_down;
        message = unreachable (provider_of failure) config.provider_down_attempts;
        severity = critical;
        timestamp = 5000;
      }
        ∷ (history thousandths config two_failures).notified
      else (history thousandths config two_failures).notified)
history-notified_example = history-notified thousandths config 5000 failure two_failures
