-- ===== src/Session/Repair/Unchanged.antt =====
-- pkg/session/manager.go, repairOrphanedToolCalls: what the repair leaves as it was.
use vikram.Base.{
  String, true, false, ◌≡◌, refl, inl, inr, ◌||◌, List, [], ◌∷◌, ◌++◌, ◌=s=◌, if◌then◌else◌, any,
  arith, str_eq_iff, Bool-cases, ap,
}
use vikram.Providers.{Message, ToolCall}
use vikram.Session.Repair.{
  is_result, satisfied_ids, contains, found_ahead, interrupted, answer_calls, answers, repair_from,
  repair_orphaned_tool_calls,
}
use vikram.Session.Repair.Complete.{AllAnswered, CallsAnswered, Complete}

module _ {V : Type 0} where
  -- No tool call has the empty id, here and for all calls of a transcript.
  abbrev pub NamedCalls : List (ToolCall V) → Type 0
  NamedCalls [] = Unit {0}
  NamedCalls (tc ∷ tcs) = ((tc.id =s= "") ≡ false) × NamedCalls tcs

  abbrev pub Named : List (Message V) → Type 0
  Named [] = Unit {0}
  Named (m ∷ ms) = NamedCalls m.tool_calls × Named ms

  contains-satisfied_ids :
      (id : String) (ms : List (Message V))
      → (id =s= "") ≡ false
      → any (is_result id) ms ≡ true
      → contains id (satisfied_ids ms) ≡ true
  unfolding satisfied_ids contains
  contains-satisfied_ids id [] ne h = h
  contains-satisfied_ids id (m ∷ ms) ne h =
      ground (arith, contains-satisfied_ids id ms ne, str_eq_iff m.tool_call_id id)

  answer_calls-satisfied :
      (tcs : List (ToolCall V)) (ms total : List (Message V))
      → NamedCalls tcs
      → CallsAnswered tcs total
      → answer_calls tcs ms (satisfied_ids total) ≡ ([], satisfied_ids total)
  unfolding answer_calls
  answer_calls-satisfied [] ms total n h = refl
  answer_calls-satisfied (tc ∷ tcs) ms total n h =
      rw (contains-satisfied_ids tc.id total n.0 h.0) (answer_calls-satisfied tcs ms total n.1 h.1)

  answers-satisfied :
      (m : Message V) (ms total : List (Message V))
      → NamedCalls m.tool_calls
      → (if m.role =s= "assistant" then CallsAnswered m.tool_calls total else Unit {0})
      → answers m ms (satisfied_ids total) ≡ ([], satisfied_ids total)
  unfolding answers
  answers-satisfied m ms total n h = elim (Bool-cases (m.role =s= "assistant")) [
    | inl e ↦ rw e (answer_calls-satisfied m.tool_calls ms total n (rw e at h))
    | inr e ↦ rw e
  ]

  repair_from-satisfied :
      (ms total : List (Message V))
      → Named ms
      → AllAnswered ms total
      → repair_from ms (satisfied_ids total) ≡ ms
  unfolding repair_from
  repair_from-satisfied [] total n h = refl
  repair_from-satisfied (m ∷ ms) total n h =
      rw (answers-satisfied m ms total n.0 h.0)
        (ap (◌∷◌ m) (repair_from-satisfied ms total n.1 h.1))

  -- A transcript in which every call is named and answered is not changed.
  pub repair_orphaned_tool_calls_fixed :
      (ms : List (Message V)) → Named ms → Complete ms → repair_orphaned_tool_calls ms ≡ ms
  unfolding repair_orphaned_tool_calls
  repair_orphaned_tool_calls_fixed ms n h = repair_from-satisfied ms ms n h

  -- The second transcript is the first with made-up answers put in.
  pub data Extends : List (Message V) → List (Message V) → Type 0 where
    done : Extends [] []
    kept : {ms out : List (Message V)} (m : Message V) → Extends ms out → Extends (m ∷ ms) (m ∷ out)
    made :
        {ms out : List (Message V)} (id : String)
        → Extends ms out
        → Extends ms (interrupted id ∷ out)

  Extends-answer_calls :
      (tcs : List (ToolCall V)) (future ms out : List (Message V)) (sat : List String)
      → Extends ms out
      → Extends ms ((answer_calls tcs future sat).0 ++ out)
  unfolding answer_calls
  Extends-answer_calls [] future ms out sat h = h
  Extends-answer_calls (tc ∷ tcs) future ms out sat h =
      elim (Bool-cases (contains tc.id sat || found_ahead tc.id future)) [
        | inl e ↦ rw e (Extends-answer_calls tcs future ms out sat h)
        | inr e ↦ rw e (made tc.id (Extends-answer_calls tcs future ms out (tc.id ∷ sat) h))
      ]

  Extends-answers :
      (m : Message V) (future ms out : List (Message V)) (sat : List String)
      → Extends ms out
      → Extends ms ((answers m future sat).0 ++ out)
  unfolding answers
  Extends-answers m future ms out sat h = elim (Bool-cases (m.role =s= "assistant")) [
    | inl e ↦ rw e (Extends-answer_calls m.tool_calls future ms out sat h)
    | inr e ↦ rw e h
  ]

  Extends-repair_from :
      (ms : List (Message V)) (sat : List String) → Extends ms (repair_from ms sat)
  unfolding repair_from
  Extends-repair_from [] sat = done
  Extends-repair_from (m ∷ ms) sat =
      let rest = (answers m ms sat).1 in
      kept m (Extends-answers m ms ms (repair_from ms rest) sat (Extends-repair_from ms rest))

  -- The repair keeps every message of the transcript, in its order, and adds made-up answers only.
  pub repair_orphaned_tool_calls-Extends :
      (ms : List (Message V)) → Extends ms (repair_orphaned_tool_calls ms)
  unfolding repair_orphaned_tool_calls
  repair_orphaned_tool_calls-Extends ms = Extends-repair_from ms (satisfied_ids ms)
