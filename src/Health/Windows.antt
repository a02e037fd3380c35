-- ===== src/Health/Windows.antt =====
-- pkg/telemetry/health_monitor.go: the rolling windows.
use vikram.Base.{Bool, true, false, not, ◌&&◌, ◌≡◌, refl, List, [], ◌∷◌, arith, leb, all, keep}
use vikram.Base.Time.{Time, before, sub}
use vikram.Health.{skip_before, prune_error_window, prune_latency_window}
use vikram.Health.Alerts.{HealthMonitor, CallOutcome, LatencyObservation}

module _ {A : Type 0} (at : A → Time) where
  -- The times do not fall along the list.
  abbrev pub in_order : List A → Bool
  in_order [] = true
  in_order (x ∷ xs) = all (λ y. leb (at x) (at y)) xs && in_order xs

  keep_later :
      (cutoff : Time) (x : A) (xs : List A)
      → before (at x) cutoff ≡ false
      → all (λ y. leb (at x) (at y)) xs ≡ true
      → keep (λ y. not (before (at y) cutoff)) xs ≡ xs
  keep_later cutoff x [] h a = refl
  keep_later cutoff x (y ∷ ys) h a = ground (arith, keep_later cutoff x ys h)

  skip_before-keep :
      (cutoff : Time) (xs : List A)
      → in_order xs ≡ true
      → skip_before at cutoff xs ≡ keep (λ y. not (before (at y) cutoff)) xs
  unfolding skip_before
  skip_before-keep cutoff [] h = refl
  skip_before-keep cutoff (x ∷ xs) h =
      ground (arith, skip_before-keep cutoff xs, keep_later cutoff x xs)

module _ {F : Type 0} where
  -- If the entries of the windows are in the order of their times, pruning keeps exactly those that are
  -- not before the cutoff.
  pub prune_windows-keep :
      (now : Time) (hm : HealthMonitor F)
      → in_order (λ (o : CallOutcome). o.timestamp) hm.error_window ≡ true
      → in_order (λ (o : LatencyObservation F). o.timestamp) hm.latency_window ≡ true
      → ((prune_error_window now hm).error_window
          ≡ keep
              (λ (o : CallOutcome). not (before o.timestamp (sub now hm.config.error_rate_window)))
              hm.error_window)
        × ((prune_latency_window now hm).latency_window
            ≡ keep
                (λ (o : LatencyObservation F).
                  not (before o.timestamp (sub now hm.config.latency_window)))
                hm.latency_window)
  unfolding prune_error_window prune_latency_window
  prune_windows-keep now hm e l = (
    skip_before-keep (λ (o : CallOutcome). o.timestamp) _ hm.error_window e,
    skip_before-keep (λ (o : LatencyObservation F). o.timestamp) _ hm.latency_window l,
  )
