-- ===== src/Queue/Examples.antt =====
-- Runs of pkg/queue/queue.go with two kinds of job.
use mathlib.Core.List.{mem-cons_self, mem-cons_of_mem}
use vikram.Base.{ℕ, ◌≡◌, refl, true, false, List, [], ◌∷◌, none, some, arith, ◌=s=◌}
use vikram.Base.Int.{pos}
use vikram.Queue.{
  Job, Queue, pending, running, new_queue, register_handler, enqueue, claim, next_pending, step,
  run, enqueues, claims, has_handler, less, update, start_attempt,
}
use vikram.Queue.Selection.{IsNext, claim-IsNext}
use vikram.Queue.Attempts.{Bounded, valid_job, step-Bounded}
use vikram.Queue.Restart.{lives, lives_attempts}
use vikram.Queue.Starvation.{IsBlocking, polls, run-polls}

abbrev mail_job : Job ℕ
mail_job = record {
  ref = 0;
  id = 1;
  kind = "mail";
  priority = pos 2;
  payload = 7;
  status = pending;
  attempts = 0;
  max_retries = 3;
  created_at = 10;
  scheduled_at = 10;
  started_at = none;
  finished_at = none;
  last_error = "";
}

abbrev urgent_job : Job ℕ
urgent_job = record mail_job {
  ref = 1;
  id = 2;
  kind = "sms";
  priority = pos 1;
  created_at = 11;
  scheduled_at = 11;
}

-- Two jobs, and a handler for one kind.
abbrev two_jobs : Queue ℕ
two_jobs = record {
  jobs = mail_job ∷ urgent_job ∷ [];
  handlers = "mail" ∷ [];
  job_counter = 2;
  next_ref = 2;
  running = true;
  run_id = 1;
  ticking = true;
  stop_closed = false;
}

abbrev handled_jobs : Queue ℕ
handled_jobs = record two_jobs { handlers = "sms" ∷ [] }

-- The store after two calls of `Enqueue`.
enqueued :
    (run
      (register_handler "mail" (new_queue [] 0))
      (enqueues "mail" (pos 2) 7 0 (pos 0) 10 ∷ enqueues "sms" (pos 1) 7 0 (pos 3) 11 ∷ [])).jobs
    ≡ mail_job ∷ urgent_job ∷ []
unfolding run step enqueue register_handler new_queue
enqueued = refl

claimed_sms :
    claim 12 handled_jobs
    ≡ some (1, record handled_jobs { jobs = mail_job ∷ start_attempt 12 urgent_job ∷ [] })
unfolding claim start_attempt ◌=s=◌ next_pending update
claimed_sms = refl

claim-IsNext_example :
    (j : Job ℕ) × IsNext 12 handled_jobs j
    × (has_handler j.kind handled_jobs ≡ true)
    × (j.ref ≡ 1)
    × (record handled_jobs { jobs = mail_job ∷ start_attempt 12 urgent_job ∷ [] }
        ≡ record handled_jobs { jobs = update 1 (start_attempt 12) handled_jobs.jobs })
claim-IsNext_example = claim-IsNext 12 handled_jobs claimed_sms

two_jobs-Bounded : Bounded two_jobs
unfolding valid_job
two_jobs-Bounded = record { rising = (omega arith, (omega arith, omega arith)); valid = refl }

step-Bounded_example : Bounded (step two_jobs (claims 12))
step-Bounded_example = step-Bounded two_jobs (claims 12) two_jobs-Bounded

-- Times of three lives.
abbrev lifetimes : List (ℕ × ℕ)
lifetimes = (20, 1) ∷ (25, 1) ∷ (90, 1) ∷ []

lives_attempts_example :
    (k : Job ℕ) × (lives lifetimes "mail" (record mail_job { status = running; attempts = 1 } ∷ [])
      ≡ k ∷ [])
    × (k.attempts ≡ 4)
    × (k.max_retries ≡ 3)
lives_attempts_example =
    lives_attempts lifetimes (record mail_job { status = running; attempts = 1 }) refl refl

two_jobs-IsBlocking : IsBlocking two_jobs urgent_job
unfolding has_handler less ◌=s=◌
two_jobs-IsBlocking = record {
  stored = mem-cons_of_mem _ mem-cons_self;
  waits = refl;
  unhandled = refl;
  first = refl;
}

run-polls_example : run two_jobs (polls (20 ∷ 21 ∷ 22 ∷ [])) ≡ two_jobs
run-polls_example = run-polls (20 ∷ 21 ∷ 22 ∷ []) two_jobs urgent_job two_jobs-IsBlocking refl
