-- ===== src/Cron/Job.antt =====
-- pkg/cron/service.go: the jobs with their schedules and states, the next run of a schedule, and what
-- loading the file of the store gives.
use vikram.Base.{
  ℕ, zero, suc, ◌+◌, String, Bool, true, false, List, [], ◌∷◌, Option, none, some, if◌then◌else◌,
  ◌=s=◌,
}
use vikram.Base.Int.{ℤ, pos, negsuc, ltb_ℤ, int64}

pub record CronSchedule : Type 0 where
  pub kind : String
  pub at_ms : Option ℤ
  pub every_ms : Option ℤ
  pub expr : String
  pub tz : String

pub record CronPayload : Type 0 where
  pub kind : String
  pub message : String
  pub command : String
  pub deliver : Bool
  pub channel : String
  pub to : String

pub record CronJobState : Type 0 where
  pub next_run_at_ms : Option ℤ
  pub last_run_at_ms : Option ℤ
  pub last_status : String
  pub last_error : String

pub record CronJob : Type 0 where
  pub id : String
  pub name : String
  pub enabled : Bool
  pub schedule : CronSchedule
  pub payload : CronPayload
  pub state : CronJobState
  pub created_at_ms : ℕ
  pub updated_at_ms : ℕ
  pub delete_after_run : Bool

-- The file of the store: what reading it gives. `malformed` stored the jobs that the decoder had read
-- when it failed.
pub data File : Type 0 where
  missing : File
  unreadable : File
  malformed : List CronJob → File
  stored : List CronJob → File

-- `executing` are the jobs that `checkJobs` has taken and whose execution has not ended.
pub record CronService : Type 0 where
  pub jobs : List CronJob
  pub file : File
  pub running : Bool
  pub executing : List String

abbrev pub running_status : String
running_status = "running"

abbrev pub set_state : CronJobState → CronJob → CronJob
set_state st j = record j { state = st }

abbrev pub set_next : Option ℤ → CronJob → CronJob
set_next next j = set_state (record (CronJob.state j) { next_run_at_ms = next }) j

abbrev pub set_status : String → CronJob → CronJob
set_status status j = set_state (record (CronJob.state j) { last_status = status }) j

unfoldable pub save_store : Bool → CronService → CronService
save_store saved s = if saved then record s { file = stored s.jobs } else s

-- `NextTickAfter` of gronx, in milliseconds, is the first argument of what calls it.
abbrev pub Ticks : Type 0
Ticks = String → ℕ → Option ℕ

abbrev pub next_at : Option ℤ → ℕ → Option ℤ
next_at none now = none
next_at (some at) now = if ltb_ℤ (pos now) at then some at else none

abbrev pub next_every : Option ℤ → ℕ → Option ℤ
next_every none now = none
next_every (some (negsuc n)) now = none
next_every (some (pos zero)) now = none
next_every (some (pos (suc n))) now = some (int64 (now + suc n))

abbrev pub tick_ms : Option ℕ → Option ℤ
tick_ms none = none
tick_ms (some t) = some (pos t)

unfoldable pub compute_next_run : Ticks → CronSchedule → ℕ → Option ℤ
unfolding ◌=s=◌
compute_next_run ticks sch now =
    if sch.kind =s= "at"
    then next_at sch.at_ms now
    else if sch.kind =s= "every"
    then next_every sch.every_ms now
    else if sch.kind =s= "cron"
    then if sch.expr =s= "" then none else tick_ms (ticks sch.expr now)
    else none

unfoldable pub recompute_next_runs : Ticks → ℕ → List CronJob → List CronJob
unfolding compute_next_run
recompute_next_runs ticks now [] = []
recompute_next_runs ticks now (j ∷ js) =
    (if j.enabled then set_next (compute_next_run ticks j.schedule now) j else j)
    ∷ recompute_next_runs ticks now js

abbrev pub earlier : Option ℤ → Option ℤ → Option ℤ
earlier wake none = wake
earlier none (some next) = some next
earlier (some wake) (some next) = if ltb_ℤ next wake then some next else some wake

unfoldable pub next_wake : List CronJob → Option ℤ → Option ℤ
next_wake [] wake = wake
next_wake (j ∷ js) wake =
    next_wake js (if j.enabled then earlier wake j.state.next_run_at_ms else wake)

unfoldable pub get_next_wake_ms : List CronJob → Option ℤ
unfolding next_wake
get_next_wake_ms js = next_wake js none

-- The recovery of loadStore.
unfoldable pub recovered : List CronJob → List CronJob
recovered [] = []
recovered (j ∷ js) =
    (if j.state.last_status =s= running_status then set_status "interrupted" j else j)
    ∷ recovered js

-- The jobs in memory, and whether there was an error.
unfoldable pub loaded : File → List CronJob × Bool
unfolding recovered
loaded missing = ([], false)
loaded unreadable = ([], true)
loaded (malformed js) = (js, true)
loaded (stored js) = (recovered js, false)
