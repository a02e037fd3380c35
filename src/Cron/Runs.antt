-- ===== src/Cron/Runs.antt =====
-- pkg/cron/service.go: the calls on a running service, in any order, and the executions that overlap.
use vikram.Base.{
  ℕ, ◌+◌, ◌≤◌, String, Bool, true, false, not, List, [], ◌∷◌, ◌++◌, Option, none, some, ◌≡◌, refl,
  ap, ◌∙◌, subst, arith, if◌then◌else◌, ◌=s=◌, any, keep, count_if-append, str_eq_iff, Bool-cases,
  inl, inr,
}
use vikram.Cron.{
  check_jobs, due_ids, is_in, finish_job, finish_found, find_job, update_first, end_execution,
  remove_job, add_job, enable_job, set_enabled, set_result, stop, ended, on_found, disable,
}
use vikram.Cron.Job.{CronService, CronJob, CronSchedule, Ticks, save_store}
use vikram.Cron.Idle.{
  times, is_idle, idle, times_none, idle_none, idle_id, mark_due, update_le, update_same, keep_le,
  end_times, find_id,
}

-- The calls. A handler that returns without the error gives `none`.
pub data Call : Type 0 where
  ticks : ℕ → Bool → Call
  finishes : String → ℕ → ℕ → Option String → Bool → Bool → Call
  adds : String → String → CronSchedule → String → Bool → String → String → ℕ → Bool → Call
  removes : String → Bool → Call
  enables : String → Bool → ℕ → Bool → Call
  stops : Call

abbrev finished : Bool → CronService → CronService → CronService
finished true next s = next
finished false next s = s

module _ (clock : Ticks) where
  -- An execution ends only if it goes on.
  pub step : Call → CronService → CronService
  unfolding check_jobs finish_job add_job remove_job enable_job stop
  step (ticks now saved) s = check_jobs now saved s
  step (finishes i began now e saved1 saved2) s =
      finished (is_in i s.executing) (finish_job clock i began now e saved1 saved2 s) s
  step (adds i name sch message deliver channel to now saved) s =
      (add_job clock i name sch message deliver channel to now saved s).0
  step (removes i saved) s = (remove_job i saved s).0
  step (enables i enabled now saved) s = enable_job clock i enabled now saved s
  step stops s = stop s

  pub run : List Call → CronService → CronService
  unfolding step
  run [] s = s
  run (c ∷ cs) s = run cs (step c s)

unfoldable pub Once : CronService → Type 0
Once s = (i : String) → times i s.executing + idle i s.jobs ≤ 1

-- The identifier of a job that is added is new.
unfoldable pub IsNew : Call → CronService → Type 0
IsNew (adds i _ _ _ _ _ _ _ _) s =
    (any (λ j. j.id =s= i) s.jobs ≡ false) × (is_in i s.executing ≡ false)
IsNew _ s = Unit

unfoldable pub AllNew : (clock : Ticks) → List Call → CronService → Type 0
unfolding IsNew step
AllNew clock [] s = Unit
AllNew clock (c ∷ cs) s = IsNew c s × AllNew clock cs (step clock c s)

-- Services whose idle jobs under an identifier are at most a number, with these executions.
module _ (k : String) (n : ℕ) (ids : List String) where
  Fits : CronService → Type 0
  Fits s = (idle k s.jobs ≤ n) × (s.executing ≡ ids)

  Fits-if : (b : Bool) (s t : CronService) → Fits s → Fits t → Fits (if b then s else t)
  Fits-if true s t fs ft = fs
  Fits-if false s t fs ft = ft

  Fits-save : (b : Bool) (s : CronService) → Fits s → Fits (save_store b s)
  unfolding Fits save_store
  Fits-save b s f = Fits-if b _ _ f f

  Fits-remove : (i : String) (b : Bool) (s : CronService) → Fits s → Fits (remove_job i b s).0
  unfolding Fits remove_job
  Fits-remove i b s f =
      let kept : Fits (record s { jobs = keep (λ j. not (j.id =s= i)) s.jobs }) =
        (omega (arith, keep_le k (λ j. not (j.id =s= i)) s.jobs, f.0), f.1) in
      Fits-if _ _ _ (Fits-save b _ kept) kept

  Fits-update :
      (i : String) (f : CronJob → CronJob) (s : CronService)
      → ((j : CronJob) → is_idle k (f j) ≡ is_idle k j)
      → Fits s
      → Fits (record s { jobs = update_first i f s.jobs })
  unfolding Fits
  Fits-update i f s hf fits = (rw (update_same i k f s.jobs hf) fits.0, fits.1)

finish_found-Fits :
    (clock : Ticks) (began now : ℕ) (e : Option String) (saved1 saved2 : Bool) (k : String)
    (s : CronService) (j : CronJob)
    → Fits k
        ((if j.id =s= k then 1 else 0) + idle k s.jobs)
        s.executing
        (finish_found clock began now e saved1 saved2 s j)
unfolding finish_found set_result disable is_idle Fits
finish_found-Fits clock began now e saved1 saved2 k s j =
    let n = (if j.id =s= k then 1 else 0) + idle k s.jobs in
    let s1 = record s { jobs = update_first j.id (set_result began now e) s.jobs } in
    let done : Fits k n s.executing s1 =
      (update_le j.id k (set_result began now e) s.jobs (λ x t. ground (arith, t)), refl) in
    Fits-save k n s.executing saved2 _ (
      Fits-if k n s.executing (j.schedule.kind =s= "at") _ _
        (Fits-if k n s.executing j.delete_after_run _ _
          (Fits-remove k n s.executing j.id saved1 s1 done)
          (Fits-update k n s.executing j.id disable s1 (λ x. refl) done))
        (Fits-update k n s.executing j.id _ s1 (λ x. refl) done))

abbrev AtMostOne : String → CronService → Type 0
AtMostOne k s = times k s.executing + idle k s.jobs ≤ 1

AtMostOne-Fits :
    (k : String) (n : ℕ) (ids : List String) (s : CronService)
    → Fits k n ids s
    → times k ids + n ≤ 1
    → AtMostOne k s
unfolding Fits
AtMostOne-Fits k n ids s f h =
    let e : times k s.executing ≡ times k ids = ap (times k) f.1 in omega (arith, f.0, e, h)

AtMostOne-if :
    (k : String) (b : Bool) (s t : CronService)
    → AtMostOne k s
    → AtMostOne k t
    → AtMostOne k (if b then s else t)
AtMostOne-if k true s t hs ht = hs
AtMostOne-if k false s t hs ht = ht

AtMostOne-save :
    (k : String) (b : Bool) (s : CronService) → AtMostOne k s → AtMostOne k (save_store b s)
unfolding save_store
AtMostOne-save k b s h = AtMostOne-if k b _ _ h h

check_jobs-AtMostOne :
    (now : ℕ) (saved : Bool) (s : CronService) (k : String)
    → AtMostOne k s
    → AtMostOne k (check_jobs now saved s)
unfolding check_jobs
check_jobs-AtMostOne now saved s k once =
    AtMostOne-if k s.running _ s
      (AtMostOne-save k saved _ (
        omega (
          arith,
          count_if-append (λ j. j =s= k) s.executing (due_ids now s.jobs),
          mark_due k now s.jobs,
          once,
        )))
      once

add_job-AtMostOne :
    (k i : String) (j : CronJob) (s : CronService)
    → j.id ≡ i
    → any (λ x. x.id =s= i) s.jobs ≡ false
    → is_in i s.executing ≡ false
    → AtMostOne k s
    → AtMostOne k (record s { jobs = s.jobs ++ j ∷ [] })
add_job-AtMostOne k i j s e unused over once =
    let longer = count_if-append (is_idle k) s.jobs (j ∷ []) in
    elim (Bool-cases (i =s= k)) [
      | inl t ↦
          let same : i ≡ k = (str_eq_iff i k).0 t in
          let no_job : idle k s.jobs ≡ 0 =
            subst (λ x. idle x s.jobs ≡ 0) same (idle_none i s.jobs unused) in
          let no_run : times k s.executing ≡ 0 =
            subst (λ x. times x s.executing ≡ 0) same (times_none i s.executing over) in
          ground (arith, longer, no_job, no_run)
      | inr f ↦
          let busy : is_idle k j ≡ false = other_busy (ap (λ x. x =s= k) e ∙ f) in
          ground (arith, longer, busy, once)
    ]
  where
    other_busy : (j.id =s= k) ≡ false → is_idle k j ≡ false
    other_busy f = ground (arith, idle_id k j, f)

module _ (clock : Ticks) (i : String) (began now : ℕ) (e : Option String) (saved1 saved2 : Bool)
    (s : CronService) (k : String) where
  on_found-AtMostOne :
      is_in i s.executing ≡ true
      → AtMostOne k s
      → (o : Option CronJob) → find_job i s.jobs ≡ o
      → AtMostOne k (ended i (on_found (finish_found clock began now e saved1 saved2 s) s o))
  unfolding Fits
  on_found-AtMostOne h once none f = omega (arith, end_times i k s.executing h, once)
  on_found-AtMostOne h once (some j) f =
      let t = finish_found clock began now e saved1 saved2 s j in
      let fits = finish_found-Fits clock began now e saved1 saved2 k s j in
      let same : (j.id =s= k) ≡ (i =s= k) = ap (λ x. x =s= k) (find_id i s.jobs j f) in
      let left = end_times i k s.executing h in
      let kept : times k (end_execution i t.executing) ≡ times k (end_execution i s.executing) =
        ap (λ x. times k (end_execution i x)) fits.1 in
      ground (arith, fits.0, same, left, kept, once)

  finish_job-AtMostOne :
      (b : Bool)
      → is_in i s.executing ≡ b
      → AtMostOne k s
      → AtMostOne k (finished b (finish_job clock i began now e saved1 saved2 s) s)
  unfolding finish_job
  finish_job-AtMostOne true h once = on_found-AtMostOne h once (find_job i s.jobs) refl
  finish_job-AtMostOne false h once = once

-- The jobs of a save are those that were there.
step-Once :
    (clock : Ticks) (c : Call) (s : CronService) → IsNew c s → Once s → Once (step clock c s)
unfolding step Once IsNew Fits add_job enable_job set_enabled stop is_idle
step-Once clock (ticks now saved) s new once k = check_jobs-AtMostOne now saved s k (once k)
step-Once clock (finishes i began now e saved1 saved2) s new once k =
    finish_job-AtMostOne clock i began now e saved1 saved2 s k (is_in i s.executing) refl (once k)
step-Once clock (adds i name sch message deliver channel to now saved) s new once k =
    AtMostOne-save k saved _ (add_job-AtMostOne k i _ s refl new.0 new.1 (once k))
step-Once clock (removes i saved) s new once k =
    AtMostOne-Fits k (idle k s.jobs) s.executing (remove_job i saved s).0
      (Fits-remove k (idle k s.jobs) s.executing i saved s (omega arith, refl)) (once k)
step-Once clock (enables i enabled now saved) s new once k =
    let same = update_same i k (set_enabled clock enabled now) s.jobs (λ x. refl) in
    AtMostOne-if k (any (λ j. j.id =s= i) s.jobs) _ s
      (AtMostOne-save k saved _ (omega (arith, same, once k))) (once k)
step-Once clock stops s new once k = once k

pub run-Once :
    (clock : Ticks) (cs : List Call) (s : CronService)
    → AllNew clock cs s
    → Once s
    → Once (run clock cs s)
unfolding run AllNew
run-Once clock [] s new once = once
run-Once clock (c ∷ cs) s new once =
    run-Once clock cs (step clock c s) new.1 (step-Once clock c s new.0 once)
