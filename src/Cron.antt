-- ===== src/Cron.antt =====
-- pkg/cron/service.go: the service that runs scheduled jobs. The state under the mutex is a record,
-- and each method is a function of it. A save writes the jobs to the file or fails (`saved` tells
-- which), and the clock is an argument in milliseconds since 1970. `executeJobByID` calls the handler
-- outside the lock, so it stands here as its part before the call and its part after it.
pub mod Job
pub mod Schedule
pub mod Idle
pub mod Runs
pub mod Start
mod Examples
use vikram.Base.{
  ℕ, zero, suc, ◌+◌, String, Bool, true, false, not, ◌&&◌, ◌||◌, List, [], ◌∷◌, ◌++◌, map, Option,
  none, some, if◌then◌else◌, ◌=s=◌, any, keep, length, ltb, count_if,
}
use vikram.Base.Int.{ℤ, pos, negsuc, leb_ℤ, ltb_ℤ, int64}
use vikram.Cron.Job.{
  CronSchedule, CronPayload, CronJobState, CronJob, File, CronService, running_status, set_state,
  set_next, set_status, save_store, Ticks, next_at, next_every, tick_ms, compute_next_run,
  recompute_next_runs, earlier, next_wake, get_next_wake_ms, recovered, loaded, missing, unreadable,
  malformed, stored,
}

pub load_store : CronService → CronService × Bool
unfolding loaded
load_store s = (record s { jobs = (loaded s.file).0 }, (loaded s.file).1)

pub new_cron_service : File → CronService
unfolding load_store
new_cron_service file =
    (load_store (record { jobs = []; file = file; running = false; executing = [] })).0

-- The service, and whether there was an error.
pub start : Ticks → ℕ → Bool → CronService → CronService × Bool
unfolding load_store recompute_next_runs save_store
start ticks now saved s =
    if s.running
    then (s, false)
    else if (load_store s).1
    then ((load_store s).0, true)
    else if saved
    then (record (save_store true (recomputed (load_store s).0)) { running = true }, false)
    else (recomputed (load_store s).0, true)
  where
    recomputed : CronService → CronService
    recomputed l = record l { jobs = recompute_next_runs ticks now l.jobs }

pub stop : CronService → CronService
stop s = record s { running = false }

abbrev reached : Option ℤ → ℕ → Bool
reached none now = false
reached (some next) now = leb_ℤ next (pos now)

unfoldable pub is_due : ℕ → CronJob → Bool
unfolding ◌=s=◌
is_due now j =
    j.enabled && reached j.state.next_run_at_ms now && not (j.state.last_status =s= running_status)

pub due_ids : ℕ → List CronJob → List String
unfolding is_due
due_ids now [] = []
due_ids now (j ∷ js) = if is_due now j then j.id ∷ due_ids now js else due_ids now js

abbrev pub is_in : String → List String → Bool
is_in i ids = any (λ k. k =s= i) ids

pub mark_running : List String → List CronJob → List CronJob
mark_running due [] = []
mark_running due (j ∷ js) =
    (if is_in j.id due then set_status running_status j else j) ∷ mark_running due js

pub check_jobs : ℕ → Bool → CronService → CronService
unfolding due_ids mark_running save_store
check_jobs now saved s =
    if s.running
    then save_store saved (record s {
      jobs = mark_running (due_ids now s.jobs) s.jobs;
      executing = s.executing ++ due_ids now s.jobs;
    })
    else s

pub find_job : String → List CronJob → Option CronJob
find_job i [] = none
find_job i (j ∷ js) = if j.id =s= i then some j else find_job i js

pub update_first : String → (CronJob → CronJob) → List CronJob → List CronJob
update_first i f [] = []
update_first i f (j ∷ js) = if j.id =s= i then f j ∷ js else j ∷ update_first i f js

abbrev other_id : String → CronJob → Bool
other_id i j = not (j.id =s= i)

-- Whether a job was removed comes second.
pub remove_job : String → Bool → CronService → CronService × Bool
unfolding save_store
remove_job i saved s =
    let kept = keep (other_id i) s.jobs in
    let removed = ltb (length kept) (length s.jobs) in
    let s1 = record s { jobs = kept } in (if removed then save_store saved s1 else s1, removed)

-- One execution less of a job.
pub end_execution : String → List String → List String
end_execution i [] = []
end_execution i (k ∷ ids) = if k =s= i then ids else k ∷ end_execution i ids

abbrev pub ended : String → CronService → CronService
ended i s = record s { executing = end_execution i s.executing }

-- What the handler is called with: a copy of the job, if it is still there.
pub callback_job : String → CronService → Option CronJob
unfolding find_job
callback_job i s = find_job i s.jobs

abbrev status_of : Option String → String
status_of none = "ok"
status_of (some e) = "error"

abbrev error_of : Option String → String
error_of none = ""
error_of (some e) = e

-- What an execution that began at `began` and ended with this error, or none, records.
pub set_result : ℕ → ℕ → Option String → CronJob → CronJob
set_result began now e j = record j {
  state = record (CronJob.state j) {
    last_run_at_ms = some (pos began);
    last_status = status_of e;
    last_error = error_of e;
  };
  updated_at_ms = now;
}

pub disable : CronJob → CronJob
disable j = record (set_next none j) { enabled = false }

-- The two flags tell whether the save of the removal and the last save succeed.
pub finish_found : Ticks → ℕ → ℕ → Option String → Bool → Bool → CronService → CronJob → CronService
unfolding update_first remove_job set_result disable compute_next_run save_store
finish_found ticks began now e saved1 saved2 s j =
    let s1 = record s { jobs = update_first j.id (set_result began now e) s.jobs } in
    let next = compute_next_run ticks j.schedule now in
    let at_removed = (remove_job j.id saved1 s1).0 in
    let at_kept = record s1 { jobs = update_first j.id disable s1.jobs } in
    let again = record s1 { jobs = update_first j.id (set_next next) s1.jobs } in
    save_store saved2 (
      if j.schedule.kind =s= "at"
      then if j.delete_after_run then at_removed else at_kept
      else again)

abbrev pub on_found : (CronJob → CronService) → CronService → Option CronJob → CronService
on_found f s none = s
on_found f s (some j) = f j

pub finish_job : Ticks → String → ℕ → ℕ → Option String → Bool → Bool → CronService → CronService
unfolding finish_found find_job end_execution
finish_job ticks i began now e saved1 saved2 s =
    ended i (on_found (finish_found ticks began now e saved1 saved2 s) s (find_job i s.jobs))

-- generateID gives the identifier. Whether there was an error comes second.
pub add_job :
    Ticks
    → String
    → String
    → CronSchedule
    → String
    → Bool
    → String
    → String
    → ℕ
    → Bool
    → CronService
    → CronService × Bool
unfolding compute_next_run save_store
add_job ticks i name sch message deliver channel to now saved s =
    let payload : CronPayload = record {
      kind = "agent_turn";
      message = message;
      command = "";
      deliver = deliver;
      channel = channel;
      to = to;
    } in
    let st : CronJobState = record {
      next_run_at_ms = compute_next_run ticks sch now;
      last_run_at_ms = none;
      last_status = "";
      last_error = "";
    } in
    let j : CronJob = record {
      id = i;
      name = name;
      enabled = true;
      schedule = sch;
      payload = payload;
      state = st;
      created_at_ms = now;
      updated_at_ms = now;
      delete_after_run = sch.kind =s= "at";
    } in
    (save_store saved (record s { jobs = s.jobs ++ j ∷ [] }), not saved)

pub update_job : CronJob → ℕ → Bool → CronService → CronService × Bool
unfolding update_first save_store
update_job job now saved s =
    if any (λ j. j.id =s= job.id) s.jobs
    then (
      save_store saved (record s {
        jobs = update_first job.id (λ _. record job { updated_at_ms = now }) s.jobs;
      }),
      not saved,
    )
    else (s, true)

pub set_enabled : Ticks → Bool → ℕ → CronJob → CronJob
unfolding compute_next_run
set_enabled ticks enabled now j =
    let next = if enabled then compute_next_run ticks j.schedule now else none in
    record (set_next next j) { enabled = enabled; updated_at_ms = now }

pub enable_job : Ticks → String → Bool → ℕ → Bool → CronService → CronService
unfolding update_first set_enabled save_store
enable_job ticks i enabled now saved s =
    if any (λ j. j.id =s= i) s.jobs
    then save_store saved
        (record s { jobs = update_first i (set_enabled ticks enabled now) s.jobs })
    else s

pub list_jobs : Bool → CronService → List CronJob
list_jobs include_disabled s = keep (λ j. include_disabled || j.enabled) s.jobs
