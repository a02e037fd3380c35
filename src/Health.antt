-- ===== src/Health.antt =====
-- pkg/telemetry/health_monitor.go and alerting.go: the health monitor and its alerts. `F` stands for
-- float64. A handler reads the clock once, as its argument `clock`. `notified` holds the alerts that
-- went to the notifier, newest first; of a message and its details the measured value is kept: the
-- rate, the latency, or the provider with its failures.
pub mod Alerts
pub mod Quiet
pub mod Windows
pub mod Failures
pub mod Evaluation
mod Examples
use vikram.Base.{
  ℕ, zero, suc, ◌+◌, ◌-◌, ◌*◌, ◌/◌, ◌%◌, ◌^◌, String, Bool, true, false, not, ◌&&◌, ◌||◌, List, [],
  ◌∷◌, ◌++◌, Option, none, some, ◌=s=◌, ◌==◌, if◌then◌else◌, length, any, count_if, ltb, leb,
}
use vikram.Base.Counts.{count_of, bump}
use vikram.Base.Float.{Float64}
use vikram.Base.Int.{ℤ, pos, negsuc, leb_ℤ, ltb_ℤ, int64}
use vikram.Base.Map.{Map, lookup, insert}
use vikram.Base.Time.{Time, Duration, before, sub, is_zero, second, minute}
use vikram.Health.Alerts.{
  Attribute, bool_value, float_value, int_value, int64_value, text_value, other_value,
  TelemetryEvent, AlertType, alert_text, AlertConfig, Message, rate_exceeds, latency_exceeds,
  unreachable, Severity, Alert, CallOutcome, LatencyObservation, HealthMonitor, is_critical,
  is_zero_int, hour_of, milliseconds, new_health_monitor, is_muted, is_quiet_hours, fire_alert,
  fire_provider_down_alert, text_of, provider_of, error_rate, latency, provider_down, warning,
  critical,
}

-- The loop that skips the entries before the cutoff at the start of a window.
pub skip_before : {A : Type 0} → (A → Time) → Time → List A → List A
skip_before at cutoff [] = []
skip_before at cutoff (x ∷ xs) = if before (at x) cutoff then skip_before at cutoff xs else x ∷ xs

module _ {F : Type 0} where
  pub prune_error_window : Time → HealthMonitor F → HealthMonitor F
  unfolding skip_before
  prune_error_window now hm = record hm {
    error_window =
        skip_before (λ (o : CallOutcome). o.timestamp) (sub now hm.config.error_rate_window)
          hm.error_window;
  }

  pub prune_latency_window : Time → HealthMonitor F → HealthMonitor F
  unfolding skip_before
  prune_latency_window now hm = record hm {
    latency_window =
        skip_before (λ (o : LatencyObservation F). o.timestamp) (sub now hm.config.latency_window)
          hm.latency_window;
  }

pub count_failure : String → Bool → Map ℕ → Map ℕ
count_failure provider success failures =
    if provider =s= ""
    then failures
    else if success
    then insert provider 0 failures
    else bump provider failures

module _ {F : Type 0} where
  pub is_down : String → HealthMonitor F → Bool
  is_down provider hm =
      leb_ℤ hm.config.provider_down_attempts (pos (count_of provider hm.provider_failures))

module _ {F : Type 0} (float : Float64 F) where
  abbrev truth : Option (Attribute F) → Bool
  truth (some (bool_value v)) = v
  truth (some (float_value v)) = not (float.eq v (float.decimal 0 0))
  truth (some (int_value v)) = not (is_zero_int v)
  truth _ = true

  pub succeeded : TelemetryEvent F → Bool
  succeeded ev = truth (lookup "success" ev.attributes)

  abbrev number : Attribute F → F
  number (float_value v) = v
  number (int_value v) = float.of_int v
  number (int64_value v) = float.of_int v
  number _ = float.decimal 0 0

  abbrev observed : Time → Option (Attribute F) → List (LatencyObservation F)
  observed now none = []
  observed now (some a) =
      if float.gt (number a) (float.decimal 0 0)
      then record { timestamp = now; latency_ms = number a } ∷ []
      else []

  -- What `ingestEvent` and `Evaluate` do with an event, before any alert.
  pub observe : Time → TelemetryEvent F → HealthMonitor F → HealthMonitor F
  unfolding succeeded count_failure provider_of
  observe clock ev hm =
      let now = if is_zero ev.timestamp then clock else ev.timestamp in
      record hm {
        error_window = hm.error_window ++ record { timestamp = now; success = succeeded ev } ∷ [];
        latency_window = hm.latency_window ++ observed now (lookup "latency_ms" ev.attributes);
        provider_failures = count_failure (provider_of ev) (succeeded ev) hm.provider_failures;
      }

  pub ingest_event : Time → TelemetryEvent F → HealthMonitor F → HealthMonitor F
  unfolding observe is_down fire_provider_down_alert
  ingest_event clock ev hm =
      let next = observe clock ev hm in
      if not (provider_of ev =s= "") && not (succeeded ev) && is_down (provider_of ev) next
      then fire_provider_down_alert (provider_of ev) clock next
      else next

  pub compute_error_rate : HealthMonitor F → F
  compute_error_rate hm =
      if length hm.error_window == 0
      then float.decimal 0 0
      else float.div
          (float.of_int (pos (count_if (λ (o : CallOutcome). not o.success) hm.error_window)))
          (float.of_int (pos (length hm.error_window)))

  pub total_latency : F → List (LatencyObservation F) → F
  total_latency total [] = total
  total_latency total (o ∷ os) = total_latency (float.add total o.latency_ms) os

  pub compute_avg_latency : HealthMonitor F → Duration
  unfolding total_latency milliseconds
  compute_avg_latency hm =
      if length hm.latency_window == 0
      then pos 0
      else milliseconds (
          float.trunc (
            float.div (total_latency (float.decimal 0 0) hm.latency_window)
              (float.of_int (pos (length hm.latency_window)))))

  -- The alert of each check, if it is over its threshold.
  pub error_rate_alerts : Time → HealthMonitor F → List (Alert F)
  unfolding compute_error_rate
  error_rate_alerts now hm =
      let rate = compute_error_rate hm in
      if float.gt rate hm.config.error_rate_threshold
      then record {
        kind = error_rate;
        message = rate_exceeds rate;
        severity = critical;
        timestamp = now;
      }
        ∷ []
      else []

  pub latency_alerts : Time → HealthMonitor F → List (Alert F)
  unfolding compute_avg_latency
  latency_alerts now hm =
      let avg = compute_avg_latency hm in
      if ltb_ℤ hm.config.latency_threshold avg
      then record {
        kind = latency;
        message = latency_exceeds avg;
        severity = warning;
        timestamp = now;
      }
        ∷ []
      else []

  pub fire_all : List (Alert F) → HealthMonitor F → HealthMonitor F
  unfolding fire_alert
  fire_all [] hm = hm
  fire_all (a ∷ alerts) hm = fire_all alerts (fire_alert a hm)

  -- The periodic check of the thresholds.
  pub check_thresholds : Time → HealthMonitor F → HealthMonitor F
  unfolding prune_error_window prune_latency_window error_rate_alerts latency_alerts fire_all
  check_thresholds now hm =
      let h1 = prune_error_window now hm in
      let h2 = prune_latency_window now (fire_all (error_rate_alerts now h1) h1) in
      fire_all (latency_alerts now h2) h2

  pub observe_all : Time → List (TelemetryEvent F) → HealthMonitor F → HealthMonitor F
  unfolding observe
  observe_all clock [] hm = hm
  observe_all clock (ev ∷ evs) hm = observe_all clock evs (observe clock ev hm)

  pub down_alerts : Time → ℤ → Map ℕ → List (Alert F)
  down_alerts now attempts [] = []
  down_alerts now attempts ((provider, failures) ∷ m) =
      if leb_ℤ attempts (pos failures)
      then record {
        kind = provider_down;
        message = unreachable provider (pos failures);
        severity = critical;
        timestamp = now;
      }
        ∷ down_alerts now attempts m
      else down_alerts now attempts m

  -- `Evaluate`: the monitor after it, and the alerts.
  pub evaluate :
      AlertConfig F
      → List (TelemetryEvent F)
      → Time
      → HealthMonitor F
      → HealthMonitor F × List (Alert F)
  unfolding observe_all down_alerts prune_error_window prune_latency_window error_rate_alerts
      latency_alerts
  evaluate config events now hm =
      let fresh = record hm {
        config = config;
        error_window = [];
        latency_window = [];
        provider_failures = [];
      } in
      let h1 = prune_error_window now (observe_all now events fresh) in
      let h2 = prune_latency_window now h1 in
      (
        record h2 { config = hm.config },
        error_rate_alerts now h1
            ++ (latency_alerts now h2
                ++ down_alerts now config.provider_down_attempts h2.provider_failures),
      )

-- alerting.go: 30 % over 10 minutes, 60 s over 5 minutes, three failures.
pub default_alert_config : {F : Type 0} → Float64 F → AlertConfig F
default_alert_config float = record {
  error_rate_threshold = float.decimal 30 2;
  error_rate_window = pos (10 * minute);
  latency_threshold = pos (60 * second);
  latency_window = pos (5 * minute);
  provider_down_attempts = pos 3;
  quiet_hours_start = pos 0;
  quiet_hours_end = pos 0;
  muted_alert_types = [];
}
