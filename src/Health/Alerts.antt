-- ===== src/Health/Alerts.antt =====
-- pkg/telemetry/health_monitor.go and alerting.go: the monitor's state, its alerts, and when an alert
-- is held back. `F` stands for float64.
use vikram.Base.{
  ℕ, suc, ◌-◌, ◌*◌, ◌/◌, ◌%◌, ◌^◌, String, Bool, true, false, not, ◌&&◌, ◌||◌, List, [], ◌∷◌,
  Option, some, ◌=s=◌, ◌==◌, if◌then◌else◌, any,
}
use vikram.Base.Int.{ℤ, pos, negsuc, leb_ℤ, ltb_ℤ, int64}
use vikram.Base.Map.{Map, lookup}
use vikram.Base.Time.{Time, Duration}

-- The dynamic type of an attribute's value, as far as the monitor looks at it.
pub data Attribute (F : Type 0) : Type 0 where
  bool_value : Bool → Attribute F
  float_value : F → Attribute F
  int_value : ℤ → Attribute F
  int64_value : ℤ → Attribute F
  text_value : String → Attribute F
  other_value : Attribute F

pub record TelemetryEvent (F : Type 0) : Type 0 where
  pub timestamp : Time
  pub attributes : Map (Attribute F)

pub data AlertType : Type 0 where
  error_rate latency provider_down : AlertType

abbrev pub alert_text : AlertType → String
alert_text error_rate = "error_rate"
alert_text latency = "latency"
alert_text provider_down = "provider_down"

pub record AlertConfig (F : Type 0) : Type 0 where
  pub error_rate_threshold : F
  pub error_rate_window : Duration
  pub latency_threshold : Duration
  pub latency_window : Duration
  pub provider_down_attempts : ℤ
  pub quiet_hours_start : ℤ
  pub quiet_hours_end : ℤ
  pub muted_alert_types : List String

pub data Message (F : Type 0) : Type 0 where
  rate_exceeds : F → Message F
  latency_exceeds : Duration → Message F
  unreachable : String → ℤ → Message F

pub data Severity : Type 0 where
  warning critical : Severity

pub record Alert (F : Type 0) : Type 0 where
  pub kind : AlertType
  pub message : Message F
  pub severity : Severity
  pub timestamp : Time

pub record CallOutcome : Type 0 where
  pub timestamp : Time
  pub success : Bool

pub record LatencyObservation (F : Type 0) : Type 0 where
  pub timestamp : Time
  pub latency_ms : F

pub record HealthMonitor (F : Type 0) : Type 0 where
  pub config : AlertConfig F
  pub error_window : List CallOutcome
  pub latency_window : List (LatencyObservation F)
  pub provider_failures : Map ℕ
  pub notified : List (Alert F)

abbrev pub is_critical : Severity → Bool
is_critical critical = true
is_critical warning = false

abbrev pub is_zero_int : ℤ → Bool
is_zero_int (pos n) = n == 0
is_zero_int (negsuc n) = false

-- The UTC hour of a time: Go's zero time is a midnight.
unfoldable pub hour_of : Time → ℕ
hour_of t = t / 3_600_000_000_000 % 24

-- time.Duration(n) * time.Millisecond in 64 bits.
unfoldable pub milliseconds : ℤ → Duration
milliseconds (pos n) = int64 (n * 1_000_000)
milliseconds (negsuc n) = int64 (2 ^ 64 - suc n * 1_000_000 % 2 ^ 64)

module _ {F : Type 0} where
  unfoldable pub new_health_monitor : AlertConfig F → HealthMonitor F
  new_health_monitor config = record {
    config = config;
    error_window = [];
    latency_window = [];
    provider_failures = [];
    notified = [];
  }

  unfoldable pub is_muted : AlertType → AlertConfig F → Bool
  is_muted kind config = any (λ muted. muted =s= alert_text kind) config.muted_alert_types

  unfoldable pub is_quiet_hours : AlertConfig F → Time → Bool
  unfolding hour_of
  is_quiet_hours config now =
      let start = config.quiet_hours_start in
      let end = config.quiet_hours_end in
      let hour = pos (hour_of now) in
      if leb_ℤ start end && leb_ℤ end start
      then false
      else if ltb_ℤ start end
      then leb_ℤ start hour && ltb_ℤ hour end
      else leb_ℤ start hour || ltb_ℤ hour end

  unfoldable pub fire_alert : Alert F → HealthMonitor F → HealthMonitor F
  unfolding is_muted is_quiet_hours
  fire_alert alert hm =
      if is_muted alert.kind hm.config
      then hm
      else if not (is_critical alert.severity) && is_quiet_hours hm.config alert.timestamp
      then hm
      else record hm { notified = alert ∷ hm.notified }

  unfoldable pub fire_provider_down_alert : String → Time → HealthMonitor F → HealthMonitor F
  unfolding fire_alert
  fire_provider_down_alert provider clock hm =
      fire_alert
        (record {
          kind = provider_down;
          message = unreachable provider hm.config.provider_down_attempts;
          severity = critical;
          timestamp = clock;
        })
        hm

  abbrev pub text_of : Option (Attribute F) → String
  text_of (some (text_value p)) = p
  text_of _ = ""

  unfoldable pub provider_of : TelemetryEvent F → String
  provider_of ev = text_of (lookup "provider" ev.attributes)
