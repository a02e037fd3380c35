-- ===== src/Cron/Examples.antt =====
-- The calls of pkg/cron/service.go on concrete jobs.
use vikram.Base.{
  str_eq_refl, ◌≢◌, ne_by_test, str_eq_iff, str_ne, Bool-cases, inl, inr, sym, ◌∙◌, ◌=s=◌, ◌+◌,
  String, Bool, true, false, not, List, [], ◌∷◌, map, none, some, ◌≡◌, refl, arith, all,
}
use vikram.Base.Int.{pos}
use vikram.Cron.{start, check_jobs, is_due, stop}
use vikram.Cron.Job.{
  running_status, CronSchedule, CronPayload, CronJob, CronService, stored, missing, Ticks,
  compute_next_run,
}
use vikram.Cron.Idle.{is_idle}
use vikram.Cron.Runs.{Call, ticks, finishes, enables, run, Once, AllNew, run-Once}
use vikram.Cron.Schedule.{IsLater, FitsInt64}
use vikram.Cron.Start.{AllFit, is_marked, restarted, start_lem}

-- The next minute.
abbrev clock : Ticks
clock expr now = some (now + 60_000)

clock-IsLater : IsLater clock
unfolding IsLater
clock-IsLater expr now t e = let same : now + 60_000 ≡ t = cc e in omega (arith, same)

abbrev schedule_of : String → CronSchedule
schedule_of kind = record {
  kind = kind;
  at_ms = some (pos 500);
  every_ms = some (pos 1_000);
  expr = "* * * * *";
  tz = "";
}

abbrev payload : CronPayload
payload = record {
  kind = "agent_turn";
  message = "report";
  command = "";
  deliver = true;
  channel = "cli";
  to = "1";
}

abbrev job_of : String → String → String → CronJob
job_of i kind status = record {
  id = i;
  name = i;
  enabled = true;
  schedule = schedule_of kind;
  payload = payload;
  state = record {
    next_run_at_ms = some (pos 500);
    last_run_at_ms = none;
    last_status = status;
    last_error = "";
  };
  created_at_ms = 0;
  updated_at_ms = 0;
  delete_after_run = false;
}

abbrev two_jobs : List CronJob
two_jobs = job_of "a" "every" "" ∷ job_of "b" "at" "running" ∷ []

abbrev service : Bool → CronService
service running = record {
  jobs = two_jobs;
  file = stored two_jobs;
  running = running;
  executing = "b" ∷ [];
}

abbrev calls : List Call
calls =
    ticks 600 true
    ∷ ticks 1_700 true
    ∷ enables "a" true 1_800 false
    ∷ finishes "b" 600 1_900 none true true
    ∷ ticks 9_000 true
    ∷ []

service-Once : Once (service true)
unfolding Once is_idle ◌=s=◌
service-Once i =
    let same = str_eq_refl running_status in
    let other : "a" ≢ "b" = ne_by_test "a" "b" refl in
    let a = str_eq_iff "a" i in
    let b = str_eq_iff "b" i in
    elim (Bool-cases ("a" =s= i)) [
      | inl e ↦
          let f : ("b" =s= i) ≡ false = str_ne "b" i (λ q. other (a.0 e ∙ sym q)) in
          ground (arith, same, e, f)
      | inr e ↦ ground (arith, same, e)
    ]

run-Once_example : Once (run clock calls (service true))
unfolding AllNew
run-Once_example = run-Once clock calls (service true) (tt, (tt, (tt, (tt, (tt, tt))))) service-Once

start_lem_example :
    ((start clock 600 true (service false)).1 ≡ false)
    × ((start clock 600 true (service false)).0.running ≡ true)
    × ((start clock 600 true (service false)).0.jobs ≡ map (restarted clock 600) two_jobs)
    × ((start clock 600 true (service false)).0.file
        ≡ stored (start clock 600 true (service false)).0.jobs)
    × (all (λ j. not (is_marked j)) (start clock 600 true (service false)).0.jobs ≡ true)
    × (all (λ j. not (is_due 600 j)) (start clock 600 true (service false)).0.jobs ≡ true)
unfolding AllFit FitsInt64
start_lem_example =
    start_lem clock 600 two_jobs (service false) refl refl clock-IsLater
      (omega arith, (omega arith, tt))

-- A job that is executing when the service is stopped and started again is taken a second time.
abbrev slow : CronService
slow = record { jobs = job_of "a" "every" "" ∷ []; file = missing; running = true; executing = [] }

restarted_twice :
    (check_jobs 5_000 true (start clock 1_000 true (stop (check_jobs 600 true slow))).0).executing
    ≡ "a" ∷ "a" ∷ []
unfolding check_jobs start stop
restarted_twice = refl

-- A one-time job whose time passed while the service was down has no next run after Start.
missed : compute_next_run clock (schedule_of "at") 501 ≡ none
unfolding compute_next_run
missed = refl
