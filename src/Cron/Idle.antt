-- ===== src/Cron/Idle.antt =====
-- pkg/cron/service.go: the jobs that are not marked as running and the executions, counted by
-- identifier, under the operations on the jobs.
use vikram.Base.{
  ℕ, ◌+◌, ◌≤◌, String, Bool, true, false, not, ◌&&◌, List, [], ◌∷◌, some, ◌≡◌, refl, sym, ap, ◌∙◌,
  arith, if◌then◌else◌, ◌=s=◌, any, keep, count_if, str_eq_iff, str_eq_refl, Bool-cases, inl, inr,
  ◌⊎◌,
}
use vikram.Cron.{mark_running, due_ids, is_due, is_in, find_job, update_first, end_execution}
use vikram.Cron.Job.{CronService, CronJob, save_store, set_status, running_status}

abbrev pub times : String → List String → ℕ
times i ids = count_if (λ k. k =s= i) ids

-- The jobs with the identifier that are not marked as running.
unfoldable pub is_idle : String → CronJob → Bool
is_idle i j = (j.id =s= i) && not (j.state.last_status =s= running_status)

abbrev pub idle : String → List CronJob → ℕ
idle i js = count_if (is_idle i) js

pub times_none : (i : String) (ids : List String) → is_in i ids ≡ false → times i ids ≡ 0
times_none i [] h = refl
times_none i (k ∷ ids) h = ground (arith, times_none i ids)

pub idle_none : (i : String) (js : List CronJob) → any (λ j. j.id =s= i) js ≡ false → idle i js ≡ 0
unfolding is_idle
idle_none i [] h = refl
idle_none i (j ∷ js) h = ground (arith, idle_none i js)

-- Of the due jobs each is idle, and marking leaves none with the identifier idle.
pub due_le : (i : String) (now : ℕ) (js : List CronJob) → times i (due_ids now js) ≤ idle i js
unfolding due_ids is_due is_idle
due_le i now [] = omega arith
due_le i now (j ∷ js) = ground (arith, due_le i now js)

pub running_busy : (i : String) (j : CronJob) → is_idle i (set_status running_status j) ≡ false
unfolding is_idle
running_busy i j =
    busy (j.id =s= i) (running_status =s= running_status) (str_eq_refl running_status)
  where
    busy : (a b : Bool) → b ≡ true → (a && not b) ≡ false
    busy a b e = ground (arith, e)

pub idle_id : (i : String) (j : CronJob) → is_idle i j ≡ true → (j.id =s= i) ≡ true
unfolding is_idle
idle_id i j e = ground (arith, e)

pub marked_idle :
    (i : String) (b : Bool) (j : CronJob)
    → is_idle i (if b then set_status running_status j else j) ≡ (not b && is_idle i j)
marked_idle i true j = running_busy i j
marked_idle i false j = refl

is_in-same : (i k : String) (due : List String) → (k =s= i) ≡ true → is_in k due ≡ is_in i due
is_in-same i k due e = ap (λ x. is_in x due) ((str_eq_iff k i).0 e)

-- Marking leaves no job idle whose identifier is due.
pub mark_all :
    (i : String) (due : List String) (js : List CronJob)
    → is_in i due ≡ true
    → idle i (mark_running due js) ≡ 0
unfolding mark_running
mark_all i due [] h = refl
mark_all i due (j ∷ js) h =
    let one : (not (is_in j.id due) && is_idle i j) ≡ false = gone (Bool-cases (j.id =s= i)) in
    ground (arith, marked_idle i (is_in j.id due) j, mark_all i due js h, one)
  where
    gone :
        (((j.id =s= i) ≡ true) ⊎ ((j.id =s= i) ≡ false))
        → (not (is_in j.id due) && is_idle i j) ≡ false
    gone (inl e) = ground (arith, is_in-same i j.id due e, h)
    gone (inr e) = ground (arith, idle_id i j, e)

pub mark_le :
    (i : String) (due : List String) (js : List CronJob) → idle i (mark_running due js) ≤ idle i js
unfolding mark_running
mark_le i due [] = omega arith
mark_le i due (j ∷ js) = ground (arith, marked_idle i (is_in j.id due) j, mark_le i due js)

-- Marking the due jobs and taking them moves each from idle to executing.
pub mark_due :
    (i : String) (now : ℕ) (js : List CronJob)
    → times i (due_ids now js) + idle i (mark_running (due_ids now js) js) ≤ idle i js
mark_due i now js = elim (Bool-cases (is_in i (due_ids now js))) [
  | inl e ↦ omega (arith, due_le i now js, mark_all i (due_ids now js) js e)
  | inr e ↦ omega (arith, times_none i (due_ids now js) e, mark_le i (due_ids now js) js)
]

pub update_le :
    (i k : String) (f : CronJob → CronJob) (js : List CronJob)
    → ((j : CronJob) → is_idle k (f j) ≡ true → (j.id =s= k) ≡ true)
    → idle k (update_first i f js) ≤ (if i =s= k then 1 else 0) + idle k js
unfolding update_first
update_le i k f [] hf = omega arith
update_le i k f (j ∷ js) hf =
    ground
      (arith, hf j, update_le i k f js hf, str_eq_iff j.id i, str_eq_iff j.id k, str_eq_iff i k)

pub update_same :
    (i k : String) (f : CronJob → CronJob) (js : List CronJob)
    → ((j : CronJob) → is_idle k (f j) ≡ is_idle k j)
    → idle k (update_first i f js) ≡ idle k js
unfolding update_first
update_same i k f [] hf = refl
update_same i k f (j ∷ js) hf = ground (arith, hf j, update_same i k f js hf)

pub keep_le : (k : String) (p : CronJob → Bool) (js : List CronJob) → idle k (keep p js) ≤ idle k js
keep_le k p [] = omega arith
keep_le k p (j ∷ js) = ground (arith, keep_le k p js)

pub end_times :
    (i k : String) (ids : List String)
    → is_in i ids ≡ true
    → (if i =s= k then 1 else 0) + times k (end_execution i ids) ≡ times k ids
unfolding end_execution
end_times i k [] h = absurd (ground (arith, h))
end_times i k (j ∷ ids) h =
    ground (arith, end_times i k ids, str_eq_iff j i, str_eq_iff j k, str_eq_iff i k, h)

pub save_jobs : (b : Bool) (s : CronService) → (save_store b s).jobs ≡ s.jobs
unfolding save_store
save_jobs true s = refl
save_jobs false s = refl

pub save_executing : (b : Bool) (s : CronService) → (save_store b s).executing ≡ s.executing
unfolding save_store
save_executing true s = refl
save_executing false s = refl

pub find_id : (i : String) (js : List CronJob) (j : CronJob) → find_job i js ≡ some j → j.id ≡ i
unfolding find_job
find_id i [] j e = absurd (cc e)
find_id i (k ∷ js) j e = elim (Bool-cases (k.id =s= i)) [
  | inl t ↦ let same : k ≡ j = cc (rw t at e) in ap CronJob.id (sym same) ∙ (str_eq_iff k.id i).0 t
  | inr f ↦ find_id i js j (rw f at e)
]
