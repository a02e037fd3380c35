-- ===== src/Health/Failures.antt =====
-- pkg/telemetry/health_monitor.go: the failures of a provider, and the alert that it is down.
use vikram.Base.{
  ℕ, suc, String, Bool, true, false, not, ◌&&◌, ◌≡◌, refl, ap, ◌∙◌, List, [], ◌∷◌, arith,
  if◌then◌else◌, ◌=s=◌, str_eq_iff, str_eq_refl, Bool-cases, ◌⊎◌, inl, inr,
}
use vikram.Base.Counts.{count_of, count_of-bump, count_of-insert}
use vikram.Base.Float.{Float64}
use vikram.Base.Int.{ℤ, pos, leb_ℤ}
use vikram.Base.Map.{Map, lookup}
use vikram.Base.Time.{Time}
use vikram.Health.{succeeded, count_failure, observe, ingest_event, is_down}
use vikram.Health.Alerts.{
  Alert, AlertConfig, HealthMonitor, TelemetryEvent, provider_down, critical, unreachable,
  new_health_monitor, provider_of, is_muted, fire_alert, fire_provider_down_alert,
}

module _ {F : Type 0} (float : Float64 F) (config : AlertConfig F) where
  -- The events that came in, newest first, each with the clock at its time.
  pub history : List (Time × TelemetryEvent F) → HealthMonitor F
  history [] = new_health_monitor config
  history ((clock, ev) ∷ older) = ingest_event float clock ev (history older)

  -- How often the provider failed since its last success.
  pub streak : String → List (Time × TelemetryEvent F) → ℕ
  streak p [] = 0
  streak p ((clock, ev) ∷ older) =
      let rest = streak p older in
      if not (provider_of ev =s= p) then rest else if succeeded float ev then 0 else suc rest

count_of-count_failure :
    (p provider : String) (success : Bool) (m : Map ℕ)
    → (p =s= "") ≡ false
    → count_of p (count_failure provider success m)
      ≡ (if not (provider =s= p) then count_of p m else if success then 0 else suc (count_of p m))
unfolding count_failure
count_of-count_failure p provider success m named = elim (Bool-cases (provider =s= p)) [
  | inl e ↦
      let same : (provider =s= "") ≡ false =
        ap (λ x. x =s= "") ((str_eq_iff provider p).0 e) ∙ named in
      rw (same, e) (ground (arith, count_of-insert provider p 0 m, count_of-bump provider p m))
  | inr e ↦ rw e (ground (arith, count_of-insert provider p 0 m, count_of-bump provider p m))
]

module _ {F : Type 0} where
  fire_alert-keeps :
      (a : Alert F) (hm : HealthMonitor F)
      → ((fire_alert a hm).provider_failures ≡ hm.provider_failures)
        × ((fire_alert a hm).config ≡ hm.config)
  unfolding fire_alert
  fire_alert-keeps a hm = (ground arith, ground arith)

module _ {F : Type 0} (float : Float64 F) where
  ingest_event-keeps :
      (clock : Time) (ev : TelemetryEvent F) (hm : HealthMonitor F)
      → ((ingest_event float clock ev hm).provider_failures
          ≡ count_failure (provider_of ev) (succeeded float ev) hm.provider_failures)
        × ((ingest_event float clock ev hm).config ≡ hm.config)
  unfolding ingest_event observe fire_provider_down_alert fire_alert
  ingest_event-keeps clock ev hm = (ground arith, ground arith)

  abbrev down : String → ℤ → Time → Alert F
  down p limit clock = record {
    kind = provider_down;
    message = unreachable p limit;
    severity = critical;
    timestamp = clock;
  }

  fire_provider_down_alert-notified :
      (p : String) (clock : Time) (hm : HealthMonitor F)
      → (fire_provider_down_alert p clock hm).notified ≡ (
          if not (is_muted provider_down hm.config)
          then down p hm.config.provider_down_attempts clock ∷ hm.notified
          else hm.notified)
  unfolding fire_provider_down_alert fire_alert
  fire_provider_down_alert-notified p clock hm = ground arith

  observe-keeps :
      (clock : Time) (ev : TelemetryEvent F) (hm : HealthMonitor F)
      → ((observe float clock ev hm).provider_failures
          ≡ count_failure (provider_of ev) (succeeded float ev) hm.provider_failures)
        × ((observe float clock ev hm).config ≡ hm.config)
        × ((observe float clock ev hm).notified ≡ hm.notified)
  unfolding observe
  observe-keeps clock ev hm = (refl, refl, refl)

  fired_if :
      (p : String) (clock : Time) (next : HealthMonitor F) (success : Bool) (n : ℕ)
      (c : AlertConfig F) (old : List (Alert F))
      → ((p =s= "") ≡ false → success ≡ false → count_of p next.provider_failures ≡ suc n)
      → next.config ≡ c
      → next.notified ≡ old
      → (if not (p =s= "") && not success && is_down p next
          then fire_provider_down_alert p clock next
          else next).notified
        ≡ (if not (p =s= "")
              && not success
              && leb_ℤ c.provider_down_attempts (pos (suc n))
              && not (is_muted provider_down c)
            then down p c.provider_down_attempts clock ∷ old
            else old)
  unfolding is_down
  fired_if p clock next true n c old count e g = ground (arith, g)
  fired_if p clock next false n c old count e g = elim (Bool-cases (p =s= "")) [
    | inl h ↦ ground (arith, g, h)
    | inr h ↦
        let counted = count h refl in
        let limit : next.config.provider_down_attempts ≡ c.provider_down_attempts =
          ap (λ x. x.provider_down_attempts) e in
        let muted : is_muted provider_down next.config ≡ is_muted provider_down c =
          ap (is_muted provider_down) e in
        let fired : (fire_provider_down_alert p clock next).notified ≡ (
            if not (is_muted provider_down c)
            then down p c.provider_down_attempts clock ∷ old
            else old) =
          fire_provider_down_alert-notified p clock next ∙ rw (muted, limit, g) refl in
        ground (arith, h, counted, limit, fired, g)
  ]

  ingest_event-notified :
      (clock : Time) (ev : TelemetryEvent F) (hm : HealthMonitor F)
      → let p = provider_of ev in
        let failures = suc (count_of p hm.provider_failures) in
        (ingest_event float clock ev hm).notified ≡ (
          if not (p =s= "")
            && not (succeeded float ev)
            && leb_ℤ hm.config.provider_down_attempts (pos failures)
            && not (is_muted provider_down hm.config)
          then down p hm.config.provider_down_attempts clock ∷ hm.notified
          else hm.notified)
  unfolding ingest_event is_down
  ingest_event-notified clock ev hm =
      let (failures, same_config, same_notified) = observe-keeps clock ev hm in
      fired_if (provider_of ev) clock (observe float clock ev hm) (succeeded float ev) _ hm.config
        hm.notified
        (λ e g.
          ap (count_of (provider_of ev)) failures
          ∙ count_of-count_failure (provider_of ev) (provider_of ev) (succeeded float ev)
              hm.provider_failures e
          ∙ rw (str_eq_refl (provider_of ev), g) refl)
        same_config same_notified

module _ {F : Type 0} (float : Float64 F) (config : AlertConfig F) where
  history-config : (h : List (Time × TelemetryEvent F)) → (history float config h).config ≡ config
  unfolding history new_health_monitor
  history-config [] = refl
  history-config ((clock, ev) ∷ older) =
      (ingest_event-keeps float clock ev (history float config older)).1 ∙ history-config older

  history-streak :
      (p : String) (h : List (Time × TelemetryEvent F))
      → (p =s= "") ≡ false
      → count_of p (history float config h).provider_failures ≡ streak float config p h
  unfolding history streak new_health_monitor
  history-streak p [] named = unfold count_of lookup in refl
  history-streak p ((clock, ev) ∷ older) named =
      ap (count_of p) (ingest_event-keeps float clock ev (history float config older)).0
      ∙ count_of-count_failure p (provider_of ev) (succeeded float ev) _ named
      ∙ ground (arith, history-streak p older named)

  -- An event brings an alert, that its provider is down, exactly if it is a failure of a named provider,
  -- the failures since the provider's last success have reached the limit with it, and such alerts
  -- are not muted; quiet hours do not matter. The alert names the provider and the limit.
  pub history-notified :
      (clock : Time) (ev : TelemetryEvent F) (older : List (Time × TelemetryEvent F))
      → let p = provider_of ev in
        let failures = suc (streak float config p older) in
        (history float config ((clock, ev) ∷ older)).notified ≡ (
          if not (p =s= "")
            && not (succeeded float ev)
            && leb_ℤ config.provider_down_attempts (pos failures)
            && not (is_muted provider_down config)
          then record {
            kind = provider_down;
            message = unreachable p config.provider_down_attempts;
            severity = critical;
            timestamp = clock;
          }
            ∷ (history float config older).notified
          else (history float config older).notified)
  unfolding history
  history-notified clock ev older =
      ingest_event-notified float clock ev (history float config older)
      ∙ ap (λ c. expected c (count_of p (history float config older).provider_failures))
          (history-config older)
      ∙ counted (Bool-cases (p =s= ""))
    where
      p : String
      p = provider_of ev

      expected : AlertConfig F → ℕ → List (Alert F)
      expected c n =
          if not (p =s= "")
            && not (succeeded float ev)
            && leb_ℤ c.provider_down_attempts (pos (suc n))
            && not (is_muted provider_down c)
          then down float p c.provider_down_attempts clock ∷ (history float config older).notified
          else (history float config older).notified

      counted :
          ((p =s= "") ≡ true) ⊎ ((p =s= "") ≡ false)
          → expected config (count_of p (history float config older).provider_failures)
            ≡ expected config (streak float config p older)
      counted (inl e) = rw e refl
      counted (inr e) = ap (expected config) (history-streak p older e)
