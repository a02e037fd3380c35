-- ===== src/Cron/Start.antt =====
-- pkg/cron/service.go: the state that `Start` leaves.
use vikram.Base.{
  ℕ, Bool, true, false, not, List, [], ◌∷◌, map, Option, none, some, ◌≡◌, refl, sym, ap, ◌∙◌, subst,
  arith, if◌then◌else◌, ◌=s=◌, all, Bool-cases, inl, inr,
}
use vikram.Base.Int.{ℤ}
use vikram.Cron.{start, load_store, is_due, reached}
use vikram.Cron.Job.{
  CronService, CronJob, Ticks, save_store, loaded, recovered, recompute_next_runs, compute_next_run,
  running_status, set_status, set_next, stored,
}
use vikram.Cron.Schedule.{IsLater, FitsInt64, is_later, compute_next_run-later}

-- The next runs of all schedules of the kind `every` have an int64.
unfoldable pub AllFit : ℕ → List CronJob → Type 0
AllFit now [] = Unit
AllFit now (j ∷ js) = FitsInt64 now j.schedule.every_ms × AllFit now js

abbrev pub is_marked : CronJob → Bool
is_marked j = j.state.last_status =s= running_status

not_reached : (now : ℕ) (next : Option ℤ) → is_later now next ≡ true → reached next now ≡ false
not_reached now none h = refl
not_reached now (some n) h = ground (arith, h)

-- One round of the recovery, and one of the loop that computes the next runs.
abbrev reset : CronJob → CronJob
reset j = if is_marked j then set_status "interrupted" j else j

abbrev renewed : Ticks → ℕ → CronJob → CronJob
renewed ticks now j = if j.enabled then set_next (compute_next_run ticks j.schedule now) j else j

reset_idle : (j : CronJob) → is_marked (reset j) ≡ false
unfolding ◌=s=◌
reset_idle j = elim (Bool-cases (is_marked j)) [ inl e ↦ rw e refl | inr e ↦ rw e e ]

reset_schedule : (j : CronJob) → (reset j).schedule ≡ j.schedule
reset_schedule j = elim (Bool-cases (is_marked j)) [ inl e ↦ rw e refl | inr e ↦ rw e refl ]

renewed_idle :
    (ticks : Ticks) (now : ℕ) (j : CronJob) → is_marked (renewed ticks now j) ≡ is_marked j
renewed_idle ticks now j = elim (Bool-cases j.enabled) [ inl e ↦ rw e refl | inr e ↦ rw e refl ]

-- What a job of the file is after Start: only its state has changed, by the recovery and the new time.
abbrev pub restarted : Ticks → ℕ → CronJob → CronJob
restarted ticks now j = record j {
  state = record (CronJob.state j) {
    next_run_at_ms =
        if j.enabled then compute_next_run ticks j.schedule now else j.state.next_run_at_ms;
    last_status = if is_marked j then "interrupted" else j.state.last_status;
  };
}

restarted-renewed :
    (ticks : Ticks) (now : ℕ) (j : CronJob) → renewed ticks now (reset j) ≡ restarted ticks now j
restarted-renewed ticks now j = elim (Bool-cases (is_marked j)) [
  | inl e ↦ elim (Bool-cases j.enabled) [ inl b ↦ rw (e, b) refl | inr b ↦ rw (e, b) refl ]
  | inr e ↦ elim (Bool-cases j.enabled) [ inl b ↦ rw (e, b) refl | inr b ↦ rw (e, b) refl ]
]

not_due :
    (now : ℕ) (j : CronJob) → reached j.state.next_run_at_ms now ≡ false → is_due now j ≡ false
unfolding is_due
not_due now j e = ground (arith, e)

disabled_not_due : (now : ℕ) (j : CronJob) → j.enabled ≡ false → is_due now j ≡ false
unfolding is_due
disabled_not_due now j e = rw e refl

renewed_not_due :
    (ticks : Ticks) (now : ℕ) (j : CronJob)
    → IsLater ticks
    → FitsInt64 now j.schedule.every_ms
    → is_due now (renewed ticks now j) ≡ false
renewed_not_due ticks now j later fits = elim (Bool-cases j.enabled) [
  | inl e ↦
      subst (λ k. is_due now k ≡ false)
        (ap (λ b. if b then set_next (compute_next_run ticks j.schedule now) j else j) (sym e))
        (not_due now _ (not_reached now _ (compute_next_run-later ticks j.schedule now later fits)))
  | inr e ↦
      subst (λ k. is_due now k ≡ false)
        (ap (λ b. if b then set_next (compute_next_run ticks j.schedule now) j else j) (sym e))
        (disabled_not_due now j e)
]

module _ (ticks : Ticks) (now : ℕ) where
  all_idle :
      (js : List CronJob)
      → all (λ j. not (is_marked j)) (recompute_next_runs ticks now (recovered js)) ≡ true
  unfolding recompute_next_runs recovered
  all_idle [] = refl
  all_idle (j ∷ js) =
      let idle : is_marked (renewed ticks now (reset j)) ≡ false =
        renewed_idle ticks now (reset j) ∙ reset_idle j in
      rw (idle, all_idle js) refl

  none_due :
      (js : List CronJob)
      → IsLater ticks
      → AllFit now js
      → all (λ j. not (is_due now j)) (recompute_next_runs ticks now (recovered js)) ≡ true
  unfolding recompute_next_runs recovered AllFit
  none_due [] later fit = refl
  none_due (j ∷ js) later fit =
      let due : is_due now (renewed ticks now (reset j)) ≡ false =
        renewed_not_due ticks now (reset j) later
          (subst (λ sch. FitsInt64 now sch.every_ms) (sym (reset_schedule j)) fit.0) in
      rw (due, none_due js later fit.1) refl

  all_restarted :
      (js : List CronJob)
      → recompute_next_runs ticks now (recovered js) ≡ map (restarted ticks now) js
  unfolding recompute_next_runs recovered
  all_restarted [] = refl
  all_restarted (j ∷ js) = rw (restarted-renewed ticks now j, all_restarted js) refl

  -- When the service is not running, the file stored jobs, and the save succeeds, Start gives no error
  -- and leaves the service running with the jobs of the file in their order, each changed only in its
  -- state: an enabled job has a new next run, and the mark of a running job is `interrupted`. It saves
  -- the same jobs in the file. None of them is marked as running, and (if the cron library gives later times and the next runs of
  -- intervals fit in int64) none is due at that moment, also no job that the service has missed.
  pub start_lem :
      (js : List CronJob) (s : CronService)
      → s.running ≡ false
      → s.file ≡ stored js
      → IsLater ticks
      → AllFit now js
      → ((start ticks now true s).1 ≡ false)
        × ((start ticks now true s).0.running ≡ true)
        × ((start ticks now true s).0.jobs ≡ map (restarted ticks now) js)
        × ((start ticks now true s).0.file ≡ stored (start ticks now true s).0.jobs)
        × (all (λ j. not (is_marked j)) (start ticks now true s).0.jobs ≡ true)
        × (all (λ j. not (is_due now j)) (start ticks now true s).0.jobs ≡ true)
  unfolding start load_store loaded save_store
  start_lem js s stopped same_file later fit =
      rw (stopped, same_file)
        (refl, refl, all_restarted js, refl, all_idle js, none_due js later fit)
