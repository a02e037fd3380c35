-- ===== src/Queue.antt =====
-- pkg/queue/queue.go: the persistent job queue. Each stretch under the mutex is one step: `claim` and
-- `complete` are the two halves of `processNext`, between which the handler runs without the lock.
-- `P` is the payload's type. An id stands for the number n of the text job_<n>, and `ref` for the
-- address of a job, by which `processNext` finds it again. Clock readings are arguments. Attempts
-- and retry limits are not negative.
pub mod Backoff
pub mod Selection
pub mod Store
pub mod Restart
pub mod Attempts
pub mod Starvation
mod Examples
use vikram.Base.{
  ℕ, zero, suc, ◌+◌, ◌*◌, ◌^◌, String, Bool, true, false, not, ◌&&◌, ◌||◌, List, [], ◌∷◌, ◌++◌,
  Option, none, some, ◌=s=◌, ◌==◌, if◌then◌else◌, leb, keep, count_if, length, any, map,
}
use vikram.Base.Int.{ℤ, pos, pos_part, leb_ℤ, ltb_ℤ, int64}
use vikram.Base.Time.{Time, Duration, after, before, add, sub, is_zero, second}

pub data Status : Type 0 where
  pending running done failed dead : Status

pub record Job (P : Type 0) : Type 0 where
  pub ref : ℕ
  pub id : ℕ
  pub kind : String
  pub priority : ℤ
  pub payload : P
  pub status : Status
  pub attempts : ℕ
  pub max_retries : ℕ
  pub created_at : Time
  pub scheduled_at : Time
  pub started_at : Option Time
  pub finished_at : Option Time
  pub last_error : String

-- `handlers` holds the kinds with a handler, `job_counter` the package's counter of ids, `next_ref`
-- the next free address. `stop_closed` is the state of `stopCh`.
pub record Queue (P : Type 0) : Type 0 where
  pub jobs : List (Job P)
  pub handlers : List String
  pub job_counter : ℕ
  pub next_ref : ℕ
  pub running : Bool
  pub run_id : ℕ
  pub ticking : Bool
  pub stop_closed : Bool

abbrev pub is_pending : Status → Bool
is_pending pending = true
is_pending _ = false

abbrev pub is_dead : Status → Bool
is_dead dead = true
is_dead _ = false

-- A job that `Purge` may drop.
abbrev pub is_over : Status → Bool
is_over done = true
is_over dead = true
is_over _ = false

abbrev pub reset_status : Status → Status
reset_status running = pending
reset_status s = s

-- time.Duration(1<<uint(attempts)) * time.Second, in 64 bits.
pub backoff : ℕ → Duration
backoff attempts = int64 (2 ^ attempts * second)

module _ {P : Type 0} where
  -- `NewQueue` in a new process, from the jobs of the file: those that ran are pending again.
  pub new_queue : List (Job P) → ℕ → Queue P
  new_queue loaded next_ref = record {
    jobs = map (λ (j : Job P). record j { status = reset_status j.status }) loaded;
    handlers = [];
    job_counter = 0;
    next_ref = next_ref;
    running = false;
    run_id = 0;
    ticking = false;
    stop_closed = false;
  }

  pub register_handler : String → Queue P → Queue P
  register_handler kind q = record q { handlers = kind ∷ q.handlers }

  pub enqueue : String → ℤ → P → Time → ℤ → Time → Queue P → Queue P × ℕ
  enqueue kind priority payload scheduled_at max_retries now q =
      let job : Job P = record {
        ref = q.next_ref;
        id = q.job_counter + 1;
        kind = kind;
        priority = priority;
        payload = payload;
        status = pending;
        attempts = 0;
        max_retries = if leb_ℤ max_retries (pos 0) then 3 else pos_part max_retries;
        created_at = now;
        scheduled_at = if is_zero scheduled_at then now else scheduled_at;
        started_at = none;
        finished_at = none;
        last_error = "";
      } in
      (
        record q {
          jobs = q.jobs ++ job ∷ [];
          job_counter = q.job_counter + 1;
          next_ref = suc q.next_ref;
        },
        q.job_counter + 1,
      )

  pub is_candidate : Time → Job P → Bool
  is_candidate now j = is_pending j.status && not (after j.scheduled_at now)

  -- The order of `sort.Slice`: by priority, then by time of creation.
  pub less : Job P → Job P → Bool
  less i j =
      if ltb_ℤ i.priority j.priority
      then true
      else if ltb_ℤ j.priority i.priority
      then false
      else before i.created_at j.created_at

  -- The first of the sorted candidates is a least one. `sort.Slice` is not stable, so of equal ones it
  -- may be any; this is the one that was enqueued first.
  pub least : Job P → List (Job P) → Job P
  unfolding less
  least best [] = best
  least best (j ∷ js) = least (if less j best then j else best) js

  first_of_sorted : List (Job P) → Option (Job P)
  unfolding least
  first_of_sorted [] = none
  first_of_sorted (j ∷ js) = some (least j js)

  pub next_pending : Time → Queue P → Option (Job P)
  unfolding first_of_sorted is_candidate
  next_pending now q = first_of_sorted (keep (is_candidate now) q.jobs)

  -- A write through the pointer to a job.
  pub update : ℕ → (Job P → Job P) → List (Job P) → List (Job P)
  update ref f [] = []
  update ref f (j ∷ js) = (if j.ref == ref then f j else j) ∷ update ref f js

  pub start_attempt : Time → Job P → Job P
  start_attempt now j = record j {
    status = running;
    started_at = some now;
    attempts = j.attempts + 1;
  }

  pub has_handler : String → Queue P → Bool
  has_handler kind q = any (λ k. k =s= kind) q.handlers

  claim_job : Time → Option (Job P) → Queue P → Option (ℕ × Queue P)
  unfolding start_attempt has_handler
  claim_job now none q = none
  claim_job now (some j) q =
      if has_handler j.kind q
      then some (j.ref, record q { jobs = update j.ref (start_attempt now) q.jobs })
      else none

  -- The first half of `processNext`: the job to run, marked as running; `none` where it returns.
  pub claim : Time → Queue P → Option (ℕ × Queue P)
  unfolding claim_job
  claim now q = claim_job now (next_pending now q) q

  -- What the second half writes of the handler's result, `none` for success.
  pub end_attempt : Option String → Time → Job P → Job P
  end_attempt none now j = record j { finished_at = some now; status = done }
  end_attempt (some e) now j =
      let k = record j { finished_at = some now; last_error = e } in
      if leb j.max_retries j.attempts
      then record k { status = dead }
      else record k { scheduled_at = add now (backoff j.attempts); status = pending }

  -- The second half of `processNext`.
  pub complete : ℕ → Option String → Time → Queue P → Queue P
  complete ref result now q = record q { jobs = update ref (end_attempt result now) q.jobs }

  pub pending_count : Queue P → ℕ
  pending_count q = count_if (λ j. is_pending j.status) q.jobs

  pub dead_count : Queue P → ℕ
  dead_count q = count_if (λ j. is_dead j.status) q.jobs

  pub job_count : Queue P → ℕ
  job_count q = length q.jobs

  find_job : ℕ → List (Job P) → Option (Job P)
  find_job id [] = none
  find_job id (j ∷ js) = if j.id == id then some j else find_job id js

  pub get_job : ℕ → Queue P → Option (Job P)
  unfolding find_job
  get_job id q = find_job id q.jobs

  pub is_purged : Time → Job P → Bool
  is_purged cutoff j = is_over j.status && before j.created_at cutoff

  pub purge : Duration → Time → Queue P → Queue P × ℕ
  unfolding is_purged
  purge max_age now q =
      let cutoff = sub now max_age in
      (
        record q { jobs = keep (λ j. not (is_purged cutoff j)) q.jobs },
        count_if (is_purged cutoff) q.jobs,
      )

  pub start : Queue P → Queue P
  start q =
      if q.running
      then q
      else record q { running = true; run_id = suc q.run_id; stop_closed = false; ticking = true }

  -- The polling goroutine of an earlier run stops nothing; `Stop` passes 0.
  pub stop_with_run_id : ℕ → Queue P → Queue P
  stop_with_run_id run_id q =
      if not q.running
      then q
      else if not (run_id == 0) && not (q.run_id == run_id)
      then q
      else record q { running = false; ticking = false; stop_closed = true }

  pub stop : Queue P → Queue P
  unfolding stop_with_run_id
  stop = stop_with_run_id 0

-- What callers, the polling goroutine and the handlers do to the queue.
pub data Op (P : Type 0) : Type 0 where
  enqueues : String → ℤ → P → Time → ℤ → Time → Op P
  claims : Time → Op P
  completes : ℕ → Option String → Time → Op P
  purges : Duration → Time → Op P
  registers : String → Op P

module _ {P : Type 0} where
  abbrev pub claimed : Queue P → Option (ℕ × Queue P) → Queue P
  claimed q none = q
  claimed q (some (ref, q')) = q'

  pub step : Queue P → Op P → Queue P
  step q (enqueues kind priority payload at max now) =
      (enqueue kind priority payload at max now q).0
  step q (claims now) = claimed q (claim now q)
  step q (completes ref result now) = complete ref result now q
  step q (purges age now) = (purge age now q).0
  step q (registers kind) = register_handler kind q

  pub run : Queue P → List (Op P) → Queue P
  run q [] = q
  run q (op ∷ ops) = run (step q op) ops
