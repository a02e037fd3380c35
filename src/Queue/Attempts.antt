-- ===== src/Queue/Attempts.antt =====
-- pkg/queue/queue.go: how often a job is attempted within one process.
use vikram.Base.{
  ℕ, mem-all, String, Bool, true, ◌&&◌, ◌≡◌, refl, sym, subst, Option, none, some, arith,
  if◌then◌else◌, ltb, leb, all,
}
use vikram.Base.Int.{ℤ}
use vikram.Base.Time.{Time, Duration}
use vikram.Queue.{
  Job, Queue, is_pending, is_candidate, claim, complete, enqueue, purge, register_handler, update,
  start_attempt, end_attempt, Op, enqueues, claims, completes, purges, registers, claimed, step,
}
use vikram.Queue.Selection.{claim-IsLeast}
use vikram.Queue.Store.{
  Rising, Rising-append, Rising-update, Rising-keep, all-append-one, all-keep, all-update,
  all-update_stored,
}

module _ {P : Type 0} where
  -- A job has a positive limit, and its attempts are within it: below it while the job is pending.
  unfoldable pub valid_job : Job P → Bool
  valid_job j =
      ltb 0 j.max_retries
      && (if is_pending j.status
          then ltb j.attempts j.max_retries
          else leb j.attempts j.max_retries)

  pub record Bounded (q : Queue P) : Type 0 where
    pub rising : Rising 0 q.next_ref q.jobs
    pub valid : all valid_job q.jobs ≡ true

  start_attempt-valid :
      (now : Time) (j : Job P)
      → is_candidate now j ≡ true
      → valid_job j ≡ true
      → valid_job (start_attempt now j) ≡ true
  unfolding valid_job start_attempt is_candidate
  start_attempt-valid now j c v = ground arith

  end_attempt-valid :
      (result : Option String) (now : Time) (j : Job P)
      → valid_job j ≡ true
      → valid_job (end_attempt result now j) ≡ true
  unfolding valid_job end_attempt
  end_attempt-valid none now j v = ground arith
  end_attempt-valid (some e) now j v = ground arith

  end_attempt-ref :
      (result : Option String) (now : Time) (j : Job P) → (end_attempt result now j).ref ≡ j.ref
  unfolding end_attempt
  end_attempt-ref none now j = refl
  end_attempt-ref (some e) now j = ground arith

  enqueue-Bounded :
      (kind : String) (priority : ℤ) (payload : P) (at : Time) (max : ℤ) (now : Time) (q : Queue P)
      → Bounded q
      → Bounded (enqueue kind priority payload at max now q).0
  unfolding enqueue
  enqueue-Bounded kind priority payload at max now q v = record {
    rising = Rising-append 0 q.next_ref q.jobs _ refl v.rising;
    valid = all-append-one valid_job q.jobs _ v.valid (unfold valid_job in (ground arith));
  }

  claim-Bounded :
      (now : Time) (q : Queue P) {ref : ℕ} {q' : Queue P}
      → Bounded q
      → claim now q ≡ some (ref, q')
      → Bounded q'
  claim-Bounded now q {ref} v h =
      let (j, next, handled, same, e) = claim-IsLeast now q h in
      subst Bounded (sym e) (record {
        rising =
            Rising-update 0 q.next_ref ref (start_attempt now) q.jobs
              (λ k. unfold start_attempt in refl) v.rising;
        valid =
            subst (λ r. all valid_job (update r (start_attempt now) q.jobs) ≡ true) same
              (all-update_stored valid_job 0 q.next_ref (start_attempt now) q.jobs j v.rising
                next.stored v.valid
                (start_attempt-valid now j next.due
                  (mem-all valid_job j q.jobs v.valid next.stored)));
      })

  complete-Bounded :
      (ref : ℕ) (result : Option String) (now : Time) (q : Queue P)
      → Bounded q
      → Bounded (complete ref result now q)
  unfolding complete
  complete-Bounded ref result now q v = record {
    rising =
        Rising-update 0 q.next_ref ref (end_attempt result now) q.jobs (end_attempt-ref result now)
          v.rising;
    valid =
        all-update valid_job ref (end_attempt result now) q.jobs (end_attempt-valid result now)
          v.valid;
  }

  purge-Bounded :
      (age : Duration) (now : Time) (q : Queue P) → Bounded q → Bounded (purge age now q).0
  unfolding purge
  purge-Bounded age now q v = record {
    rising = Rising-keep 0 q.next_ref _ q.jobs v.rising;
    valid = all-keep valid_job _ q.jobs v.valid;
  }

  -- Every step of a process keeps each job's attempts within its retry limit, and below the limit while
  -- the job is pending; addresses stay distinct.
  pub step-Bounded : (q : Queue P) (op : Op P) → Bounded q → Bounded (step q op)
  unfolding step register_handler
  step-Bounded q (enqueues kind priority payload at max now) v =
      enqueue-Bounded kind priority payload at max now q v
  step-Bounded q (claims now) v = taken (claim now q) refl
    where
      taken : (o : Option (ℕ × Queue P)) → claim now q ≡ o → Bounded (claimed q o)
      taken none e = v
      taken (some (ref, q')) e = claim-Bounded now q v e
  step-Bounded q (completes ref result now) v = complete-Bounded ref result now q v
  step-Bounded q (purges age now) v = purge-Bounded age now q v
  step-Bounded q (registers kind) v = record { rising = v.rising; valid = v.valid }
