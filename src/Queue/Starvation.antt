-- ===== src/Queue/Starvation.antt =====
-- pkg/queue/queue.go: a job of a kind that has no handler. `processNext` returns at it and looks at no
-- other job.
use mathlib.Core.List.{Mem}
use vikram.Base.{
  ℕ, ◌≤◌, true, false, ◌≡◌, refl, ap, ◌∙◌, List, [], ◌∷◌, Option, none, some, arith, not, ◌||◌,
  ◌=s=◌, str_eq_iff, mem-all, all, leb,
}
use vikram.Base.Time.{Time}
use vikram.Queue.{
  Job, Queue, Op, claims, claim, is_candidate, is_pending, has_handler, less, step, run, claimed,
}
use vikram.Queue.Selection.{claim-IsLeast}

module _ {P : Type 0} where
  -- Where the polling goroutine ticks at these times, and nothing else happens.
  pub polls : List Time → List (Op P)
  polls [] = []
  polls (t ∷ ts) = claims t ∷ polls ts

  -- `j` is pending with no handler, and every other pending job is of its kind or comes after it.
  pub record IsBlocking (q : Queue P) (j : Job P) : Type 0 where
    pub stored : Mem j q.jobs
    pub waits : is_pending j.status ≡ true
    pub unhandled : has_handler j.kind q ≡ false
    pub first : all (λ k. not (is_pending k.status) || k.kind =s= j.kind || less j k) q.jobs ≡ true

  candidate-pending :
      (now : Time) (k : Job P) → is_candidate now k ≡ true → is_pending k.status ≡ true
  unfolding is_candidate
  candidate-pending now k c = ground arith

  due-candidate :
      (now : Time) (k : Job P)
      → is_pending k.status ≡ true
      → k.scheduled_at ≤ now
      → is_candidate now k ≡ true
  unfolding is_candidate
  due-candidate now k p d = ground arith

  claim-blocked :
      (now : Time) (q : Queue P) (j : Job P)
      → IsBlocking q j
      → j.scheduled_at ≤ now
      → claim now q ≡ none
  claim-blocked now q j b due = taken (claim now q) refl
    where
      differs :
          (k : Job P)
          → is_pending k.status ≡ true
          → has_handler k.kind q ≡ true
          → less j k ≡ false
          → (not (is_pending k.status) || k.kind =s= j.kind || less j k) ≡ true
          → ⊥
      differs k p h l f =
          let same : k.kind ≡ j.kind = (str_eq_iff k.kind j.kind).0 (ground arith) in
          cc (ap (λ kind. has_handler kind q) same, h, b.unhandled)

      taken : (o : Option (ℕ × Queue P)) → claim now q ≡ o → o ≡ none
      taken none e = refl
      taken (some (ref, q')) e =
          let (k, next, handled, same, rest) = claim-IsLeast now q e in
          let waits = candidate-pending now k next.due in
          let behind = next.first j b.stored (due-candidate now j b.waits due) in
          let first = mem-all _ k q.jobs b.first next.stored in
          absurd (differs k waits handled behind first)

  -- While a due job has no handler, and every other pending job is of its kind or comes after it in
  -- the order of priority and creation, polling leaves the whole queue as it is, however often.
  pub run-polls :
      (ts : List Time) (q : Queue P) (j : Job P)
      → IsBlocking q j
      → all (λ t. leb j.scheduled_at t) ts ≡ true
      → run q (polls ts) ≡ q
  unfolding run polls step
  run-polls [] q j b due = refl
  run-polls (t ∷ ts) q j b due =
      ap (λ o. run (claimed q o) (polls ts)) (claim-blocked t q j b (ground (arith, due)))
      ∙ run-polls ts q j b (ground (arith, due))
