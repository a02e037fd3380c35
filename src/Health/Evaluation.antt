-- ===== src/Health/Evaluation.antt =====
-- pkg/telemetry/health_monitor.go: `Evaluate`, which works on the monitor's own windows.
use vikram.Base.{◌≡◌, refl, List, [], ◌∷◌}
use vikram.Base.Float.{Float64}
use vikram.Base.Time.{Time}
use vikram.Health.{
  observe, observe_all, evaluate, prune_error_window, prune_latency_window, error_rate_alerts,
  latency_alerts, compute_error_rate, compute_avg_latency,
}
use vikram.Health.Alerts.{Alert, AlertConfig, HealthMonitor, TelemetryEvent, new_health_monitor}

module _ {F : Type 0} (float : Float64 F) where
  observe_all-notified :
      (clock : Time) (evs : List (TelemetryEvent F)) (hm : HealthMonitor F) (n : List (Alert F))
      → observe_all float clock evs (record hm { notified = n })
        ≡ record (observe_all float clock evs hm) { notified = n }
  unfolding observe_all observe
  observe_all-notified clock [] hm n = refl
  observe_all-notified clock (ev ∷ evs) hm n =
      observe_all-notified clock evs (observe float clock ev hm) n

  -- `Evaluate` gives the alerts of a new monitor with the given configuration and events, and leaves
  -- the monitor with that one's windows and counters, whatever it held: only its configuration and
  -- its notifications are as before.
  pub evaluate-new_health_monitor :
      (config : AlertConfig F) (events : List (TelemetryEvent F)) (now : Time)
      (hm : HealthMonitor F)
      → let r = evaluate float config events now (new_health_monitor config) in
        evaluate float config events now hm
        ≡ (record r.0 { config = hm.config; notified = hm.notified }, r.1)
  unfolding evaluate new_health_monitor prune_error_window prune_latency_window error_rate_alerts
      latency_alerts compute_error_rate compute_avg_latency
  evaluate-new_health_monitor config events now hm =
      rw (observe_all-notified now events (new_health_monitor config) hm.notified) refl
