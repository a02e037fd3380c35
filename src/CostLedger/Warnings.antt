-- ===== src/CostLedger/Warnings.antt =====
-- pkg/costledger/circuit_breaker.go: the warnings of a task when checks run at the same time. The
-- tracker of warnings is locked for `hasSent` and for `markSent`, not in between, so each check takes
-- its steps among those of others.
use vikram.Base.{
  ℕ, ◌+◌, String, Bool, true, ◌≡◌, refl, ap, ◌∙◌, List, [], ◌∷◌, Option, none, some, arith,
  if◌then◌else◌, count_if, ◌=s=◌, str_eq_iff, Bool-cases, inl, inr, pick, PickCounts,
  pick-PickCounts,
}
use vikram.Base.Map.{lookup, lookup-insert, lookup-insert_self}
use vikram.Base.Time.{Time}
use vikram.Base.Float.{Float64}
use vikram.CostLedger.{
  Ledger, CircuitBreakerState, CostRecord, record_cost, warns, has_sent, or_false, notify,
  mark_sent, rotate_daily_if_needed, add_to_task_total, add_to_daily_total,
}

-- The ledger, the checks that have found no warning sent and not yet called Notify, and those that
-- have called it and not yet marked the task, each by its task.
pub record Checks (F : Type 0) : Type 0 where
  pub ledger : Ledger F
  pub sending : List String
  pub marking : List String

-- A check reaches the test of the tracker with the costs and the cap that it has read before, sends its
-- warning, and marks the task; the last two by the check's place.
pub data Op (F : Type 0) : Type 0 where
  records : CostRecord F → Option String → Time → Op F
  tests : String → F → F → Op F
  sends : ℕ → Op F
  marks : ℕ → Op F

module _ {F : Type 0} (float : Float64 F) where
  unfoldable pub tested : String → F → F → Option (CircuitBreakerState F) → Checks F → Checks F
  unfolding warns
  tested t cumulative max none c = c
  tested t cumulative max (some cb) c =
      if warns float t cumulative (some max) cb then record c { sending = t ∷ c.sending } else c

  unfoldable pub sent : Option (String × List String) → Checks F → Checks F
  unfolding notify
  sent none c = c
  sent (some (t, rest)) c = record c {
    ledger = notify t c.ledger;
    sending = rest;
    marking = t ∷ c.marking;
  }

  unfoldable pub marked : Option (String × List String) → Checks F → Checks F
  unfolding mark_sent
  marked none c = c
  marked (some (t, rest)) c = record c { ledger = mark_sent t c.ledger; marking = rest }

  unfoldable pub step : Op F → Checks F → Checks F
  unfolding tested sent marked record_cost
  step (records rec insert_error now) c = record c {
    ledger = (record_cost float rec insert_error now c.ledger).0;
  }
  step (tests t cumulative max) c = tested t cumulative max c.ledger.cb_state c
  step (sends k) c = sent (pick k c.sending) c
  step (marks k) c = marked (pick k c.marking) c

  unfoldable pub run : List (Op F) → Checks F → Checks F
  unfolding step
  run [] c = c
  run (op ∷ ops) c = run ops (step op c)

  -- The warnings of a task that were sent, and those that will be by the checks under way.
  abbrev pub count_warnings : String → Checks F → ℕ
  count_warnings t c = count_if (λ x. x =s= t) c.ledger.notified + count_if (λ x. x =s= t) c.sending

  is_marked : String → Option (CircuitBreakerState F) → Bool
  is_marked t none = true
  is_marked t (some cb) = has_sent t cb

  -- The task is marked still, and its warnings are as many as before.
  abbrev Kept : String → Checks F → Checks F → Type 0
  Kept t c d = (is_marked t d.ledger.cb_state ≡ true) × (count_warnings t d ≡ count_warnings t c)

  record_cost-cb_state :
      (rec : CostRecord F) (e : Option String) (now : Time) (l : Ledger F)
      → ((record_cost float rec e now l).0.cb_state ≡ l.cb_state)
        × ((record_cost float rec e now l).0.notified ≡ l.notified)
  unfolding record_cost rotate_daily_if_needed add_to_daily_total add_to_task_total
  record_cost-cb_state rec none now l = (ground arith, ground arith)
  record_cost-cb_state rec (some e) now l = (ground arith, ground arith)

  tested-Kept :
      (t u : String) (cumulative max : F) (o : Option (CircuitBreakerState F)) (c : Checks F)
      → c.ledger.cb_state ≡ o
      → is_marked t o ≡ true
      → Kept t c (tested u cumulative max o c)
  unfolding tested warns has_sent is_marked
  tested-Kept t u cumulative max none c e h = (rw e refl, refl)
  tested-Kept t u cumulative max (some cb) c e h = elim (Bool-cases (u =s= t)) [
    | inl same ↦
        let also : or_false (lookup u cb.sent) ≡ true =
          ap (λ x. or_false (lookup x cb.sent)) ((str_eq_iff u t).0 same) ∙ h in
        (ground (arith, e, h, also), ground (arith, also))
    | inr other ↦ (ground (arith, e, h, other), ground (arith, other))
  ]

  sent-Kept :
      (t : String) (o : Option (String × List String)) (c : Checks F)
      → PickCounts (λ x. x =s= t) c.sending o
      → is_marked t c.ledger.cb_state ≡ true
      → Kept t c (sent o c)
  unfolding sent notify
  sent-Kept t none c p h = (h, refl)
  sent-Kept t (some (u, rest)) c p h = (h, omega (arith, p))

  mark_sent-is_marked :
      (t u : String) (l : Ledger F)
      → is_marked t l.cb_state ≡ true
      → is_marked t (mark_sent u l).cb_state ≡ true
  unfolding mark_sent is_marked has_sent
  mark_sent-is_marked t u l h = cases l.cb_state refl
    where
      cases :
          (o : Option (CircuitBreakerState F))
          → l.cb_state ≡ o
          → is_marked t (mark_sent u l).cb_state ≡ true
      cases none e = rw e refl
      cases (some cb) e =
          let before : or_false (lookup t cb.sent) ≡ true = rw e at h in
          rw e (ap or_false (lookup-insert u t true cb.sent) ∙ ground (arith, before))

  mark_sent-marks : (t : String) (l : Ledger F) → is_marked t (mark_sent t l).cb_state ≡ true
  unfolding mark_sent is_marked has_sent
  mark_sent-marks t l = cases l.cb_state refl
    where
      cases :
          (o : Option (CircuitBreakerState F))
          → l.cb_state ≡ o
          → is_marked t (mark_sent t l).cb_state ≡ true
      cases none e = rw e refl
      cases (some cb) e = rw e (ap or_false (lookup-insert_self t true cb.sent))

  mark_sent-notified : (t : String) (l : Ledger F) → (mark_sent t l).notified ≡ l.notified
  unfolding mark_sent
  mark_sent-notified t l = ground arith

  marked-Kept :
      (t : String) (o : Option (String × List String)) (c : Checks F)
      → is_marked t c.ledger.cb_state ≡ true
      → Kept t c (marked o c)
  unfolding marked
  marked-Kept t none c h = (h, refl)
  marked-Kept t (some (u, rest)) c h = (
    mark_sent-is_marked t u c.ledger h,
    ap (λ xs. count_if (λ x. x =s= t) xs + count_if (λ x. x =s= t) c.sending)
        (mark_sent-notified u c.ledger),
  )

  step-Kept :
      (t : String) (op : Op F) (c : Checks F)
      → is_marked t c.ledger.cb_state ≡ true
      → Kept t c (step op c)
  unfolding step
  step-Kept t (records rec e now) c h =
      let (state, sent) = record_cost-cb_state rec e now c.ledger in
      (
        ap (is_marked t) state ∙ h,
        ap (λ xs. count_if (λ x. x =s= t) xs + count_if (λ x. x =s= t) c.sending) sent,
      )
  step-Kept t (tests u cumulative max) c h =
      tested-Kept t u cumulative max c.ledger.cb_state c refl h
  step-Kept t (sends k) c h =
      sent-Kept t (pick k c.sending) c (pick-PickCounts (λ x. x =s= t) k c.sending) h
  step-Kept t (marks k) c h = marked-Kept t (pick k c.marking) c h

  run-Kept :
      (t : String) (ops : List (Op F)) (c : Checks F)
      → is_marked t c.ledger.cb_state ≡ true
      → count_warnings t (run ops c) ≡ count_warnings t c
  unfolding run
  run-Kept t [] c h = refl
  run-Kept t (op ∷ ops) c h =
      let (still, same) = step-Kept t op c h in run-Kept t ops (step op c) still ∙ same

  -- When a check that has sent the warning of a task marks the task, then, whatever costs are recorded
  -- and whatever steps any checks take afterwards, in any order, the only further warnings of the task
  -- are those of the checks that had passed the test of the tracker before: the warnings sent, and
  -- those still to be sent by checks under way, stay as many as they were. Warnings are not reset.
  pub run-marks :
      (t : String) (k : ℕ) (rest : List String) (ops : List (Op F)) (c : Checks F)
      → pick k c.marking ≡ some (t, rest)
      → count_warnings t (run ops (step (marks k) c)) ≡ count_warnings t c
  unfolding step marked
  run-marks t k rest ops c e =
      let marks_it : is_marked t (step (marks k) c).ledger.cb_state ≡ true =
        ap (λ o. is_marked t (marked o c).ledger.cb_state) e ∙ mark_sent-marks t c.ledger in
      run-Kept t ops (step (marks k) c) marks_it
      ∙ ap (λ o. count_warnings t (marked o c)) e
      ∙ ap (λ xs. count_if (λ x. x =s= t) xs + count_if (λ x. x =s= t) c.sending)
          (mark_sent-notified t c.ledger)
