-- ===== src/Queue/Selection.antt =====
-- pkg/queue/queue.go: which job `processNext` takes.
use mathlib.Core.Bool.{Bool-set}
use mathlib.Core.List.{Mem, mem-cons, mem-cons_self, mem-cons_of_mem, not-mem-nil, Mem-prop}
use mathlib.Core.Logic.Or
use vikram.Base.{
  ap, leb, ◌≤◌, ◌&&◌, ◌||◌, ℕ, Bool, true, false, ◌≡◌, refl, subst, List, [], ◌∷◌, Option, none,
  some, arith, if◌then◌else◌, keep, keep_of_mem, mem-keep, mem_of_keep,
}
use vikram.Base.Int.{ltb_ℤ, leb_ℤ}
use vikram.Base.Time.{Time}
use vikram.Queue.{
  Status, pending, running, done, failed, dead, is_pending, Job, Queue, is_candidate, less, least,
  first_of_sorted, next_pending, claim_job, claim, update, start_attempt, has_handler,
}

pending_of_test : (s : Status) → is_pending s ≡ true → s ≡ pending
pending_of_test pending h = refl
pending_of_test running h = absurd (cc h)
pending_of_test done h = absurd (cc h)
pending_of_test failed h = absurd (cc h)
pending_of_test dead h = absurd (cc h)

module _ {P : Type 0} where
  less_irrefl : (i : Job P) → less i i ≡ false
  unfolding less
  less_irrefl i = ground arith

  less_trans : (i j k : Job P) → less i j ≡ true → less j k ≡ true → less i k ≡ true
  unfolding less
  less_trans i j k h g = ground arith

  -- A job that is not before the best so far is not before the best at the end.
  least_keeps :
      (x best : Job P) (js : List (Job P)) → less x best ≡ false → less x (least best js) ≡ false
  unfolding least
  least_keeps x best [] h = h
  least_keeps x best (j ∷ js) h =
      least_keeps x (if less j best then j else best) js (ground (arith, less_trans x j best))

  least-le :
      (x best : Job P) (js : List (Job P)) → Mem x (best ∷ js) → less x (least best js) ≡ false
  unfolding least
  least-le x best [] m =
      Or.elim (Bool-set _ _) (mem-cons.0 m) (λ e. rw e (less_irrefl best))
        (λ n. absurd (not-mem-nil n))
  least-le x best (j ∷ js) m =
      Or.elim (Bool-set _ _) (mem-cons.0 m)
        (λ e.
          least_keeps x (if less j best then j else best) js
            (rw e (ground (arith, less_trans best j best, less_irrefl best))))
        (λ n.
          Or.elim (Bool-set _ _) (mem-cons.0 n)
            (λ e.
              least_keeps x (if less j best then j else best) js
                (rw e (ground (arith, less_irrefl j))))
            (λ o. least-le x (if less j best then j else best) js (mem-cons_of_mem _ o)))

  mem-least : (best : Job P) (js : List (Job P)) → Mem (least best js) (best ∷ js)
  unfolding least
  mem-least best [] = mem-cons_self
  mem-least best (j ∷ js) = placed (less j best) (mem-least (if less j best then j else best) js)
    where
      placed :
          (b : Bool)
          → Mem (least (if b then j else best) js) ((if b then j else best) ∷ js)
          → Mem (least (if b then j else best) js) (best ∷ j ∷ js)
      placed true m = mem-cons_of_mem best m
      placed false m =
          Or.elim Mem-prop (mem-cons.0 m) (λ e. rw e mem-cons_self)
            (λ n. mem-cons_of_mem best (mem-cons_of_mem j n))

  -- `j` is due, and no job that is due comes before it.
  pub record IsLeast (now : Time) (q : Queue P) (j : Job P) : Type 0 where
    pub stored : Mem j q.jobs
    pub due : is_candidate now j ≡ true
    pub first : (k : Job P) → Mem k q.jobs → is_candidate now k ≡ true → less k j ≡ false

  pub next_pending-IsLeast :
      (now : Time) (q : Queue P) (j : Job P) → next_pending now q ≡ some j → IsLeast now q j
  unfolding next_pending
  next_pending-IsLeast now q j h =
      let (in_candidates, least_of) = sorted (keep (is_candidate now) q.jobs) h in
      record {
        stored = mem_of_keep (is_candidate now) j q.jobs in_candidates;
        due = keep_of_mem (is_candidate now) j q.jobs in_candidates;
        first = λ k m c. least_of k (mem-keep (is_candidate now) k q.jobs m c);
      }
    where
      sorted :
          (js : List (Job P))
          → first_of_sorted js ≡ some j
          → Mem j js × ((k : Job P) → Mem k js → less k j ≡ false)
      sorted [] e = absurd (cc e)
      sorted (b ∷ js) e =
          let is_least : least b js ≡ j = unfold first_of_sorted in (cc e) in
          (
            subst (λ x. Mem x (b ∷ js)) is_least (mem-least b js),
            λ k m. subst (λ x. less k x ≡ false) is_least (least-le k b js m),
          )

  claim_job-some :
      (now : Time) (o : Option (Job P)) (q : Queue P) {ref : ℕ} {q' : Queue P}
      → claim_job now o q ≡ some (ref, q')
      → (j : Job P) × (o ≡ some j)
        × (has_handler j.kind q ≡ true)
        × (j.ref ≡ ref)
        × (q' ≡ record q { jobs = update ref (start_attempt now) q.jobs })
  unfolding claim_job
  claim_job-some now none q h = absurd (cc h)
  claim_job-some now (some j) q h = (j, refl, ground arith, ground arith, ground arith)

  pub claim-IsLeast :
      (now : Time) (q : Queue P) {ref : ℕ} {q' : Queue P}
      → claim now q ≡ some (ref, q')
      → (j : Job P) × IsLeast now q j
        × (has_handler j.kind q ≡ true)
        × (j.ref ≡ ref)
        × (q' ≡ record q { jobs = update ref (start_attempt now) q.jobs })
  unfolding claim
  claim-IsLeast now q h =
      let (j, e, handled, same, rest) = claim_job-some now (next_pending now q) q h in
      (j, next_pending-IsLeast now q j e, handled, same, rest)

  -- `j` is stored, pending and due at `now`, and no other job that is pending and due has a smaller
  -- priority, or the same and an earlier time of creation.
  pub record IsNext (now : Time) (q : Queue P) (j : Job P) : Type 0 where
    pub stored : Mem j q.jobs
    pub waits : j.status ≡ pending
    pub due : j.scheduled_at ≤ now
    pub first :
        (k : Job P)
        → Mem k q.jobs
        → k.status ≡ pending
        → k.scheduled_at ≤ now
        → (leb_ℤ j.priority k.priority
            && (ltb_ℤ j.priority k.priority || leb j.created_at k.created_at))
          ≡ true

  candidate-test :
      (now : Time) (k : Job P)
      → k.status ≡ pending
      → k.scheduled_at ≤ now
      → is_candidate now k ≡ true
  unfolding is_candidate
  candidate-test now k w d = ground (arith, ap is_pending w)

  least-order :
      (j k : Job P)
      → less k j ≡ false
      → (leb_ℤ j.priority k.priority
          && (ltb_ℤ j.priority k.priority || leb j.created_at k.created_at))
        ≡ true
  unfolding less
  least-order j k h = ground arith

  IsLeast-IsNext : (now : Time) (q : Queue P) (j : Job P) → IsLeast now q j → IsNext now q j
  IsLeast-IsNext now q j l = record {
    stored = l.stored;
    waits = pending_of_test j.status (unfold is_candidate in (ground (arith, l.due)));
    due = unfold is_candidate in (ground (arith, l.due));
    first = λ k m w d. least-order j k (l.first k m (candidate-test now k w d));
  }

  -- When `processNext` takes a job, it is due, has a handler, and no job that is due comes before it by
  -- priority and then by time of creation; the step starts an attempt of this job and changes no
  -- other field of the queue.
  pub claim-IsNext :
      (now : Time) (q : Queue P) {ref : ℕ} {q' : Queue P}
      → claim now q ≡ some (ref, q')
      → (j : Job P) × IsNext now q j
        × (has_handler j.kind q ≡ true)
        × (j.ref ≡ ref)
        × (q' ≡ record q { jobs = update ref (start_attempt now) q.jobs })
  claim-IsNext now q h =
      let (j, next, handled, same, rest) = claim-IsLeast now q h in
      (j, IsLeast-IsNext now q j next, handled, same, rest)
