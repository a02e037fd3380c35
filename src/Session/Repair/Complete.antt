-- ===== src/Session/Repair/Complete.antt =====
-- pkg/session/manager.go, repairOrphanedToolCalls: every tool call is answered in the result.
use vikram.Base.{
  String, Bool, true, false, ◌≡◌, refl, ◌⊎◌, inl, inr, ◌||◌, List, [], ◌∷◌, ◌++◌, ◌=s=◌,
  if◌then◌else◌, any, arith, any-append, str_eq_refl, Bool-cases,
}
use vikram.Providers.{Message, ToolCall}
use vikram.Session.Repair.{
  is_result, satisfied_ids, contains, found_ahead, interrupted, answer_calls, answers, repair_from,
  repair_orphaned_tool_calls,
}

tool_role : ("tool" =s= "assistant") ≡ false
unfolding ◌=s=◌
tool_role = refl

module _ {V : Type 0} where
  -- Each of the calls has a result in the transcript.
  abbrev pub CallsAnswered : List (ToolCall V) → List (Message V) → Type 0
  CallsAnswered [] total = Unit {0}
  CallsAnswered (tc ∷ tcs) total = (any (is_result tc.id) total ≡ true) × CallsAnswered tcs total

  -- Each call of an assistant message among `ms` has a result in the transcript `total`.
  abbrev pub AllAnswered : List (Message V) → List (Message V) → Type 0
  AllAnswered [] total = Unit {0}
  AllAnswered (m ∷ ms) total =
      (if m.role =s= "assistant" then CallsAnswered m.tool_calls total else Unit {0})
      × AllAnswered ms total

  -- A transcript that a provider accepts: every tool call of it has a result in it.
  abbrev pub Complete : List (Message V) → Type 0
  Complete ms = AllAnswered ms ms

  found_ahead-any :
      (id : String) (ms : List (Message V))
      → found_ahead id ms ≡ true
      → any (is_result id) ms ≡ true
  unfolding found_ahead
  found_ahead-any id [] h = h
  found_ahead-any id (m ∷ ms) h = ground (arith, found_ahead-any id ms)

  any-repair_from :
      (p : Message V → Bool) (ms : List (Message V)) (sat : List String)
      → any p ms ≡ true
      → any p (repair_from ms sat) ≡ true
  unfolding repair_from
  any-repair_from p [] sat h = h
  any-repair_from p (m ∷ ms) sat h =
      let r = answers m ms sat in
      ground (arith, any-append p r.0 (repair_from ms r.1), any-repair_from p ms r.1)

  contains-answer_calls :
      (id : String) (tcs : List (ToolCall V)) (ms : List (Message V)) (sat : List String)
      → contains id (answer_calls tcs ms sat).1 ≡ true
      → (contains id sat ≡ true) ⊎ (any (is_result id) (answer_calls tcs ms sat).0 ≡ true)
  unfolding answer_calls contains
  contains-answer_calls id [] ms sat h = inl h
  contains-answer_calls id (tc ∷ tcs) ms sat h = ground (
    arith,
    contains-answer_calls id tcs ms sat,
    contains-answer_calls id tcs ms (tc.id ∷ sat),
    str_eq_refl "tool",
  )

  CallsAnswered-answer_calls :
      (tcs : List (ToolCall V)) (ms total : List (Message V)) (sat : List String)
      → ((id : String) → contains id sat ≡ true → any (is_result id) total ≡ true)
      → ((id : String) → any (is_result id) ms ≡ true → any (is_result id) total ≡ true)
      → ((id : String)
          → any (is_result id) (answer_calls tcs ms sat).0 ≡ true
          → any (is_result id) total ≡ true)
      → CallsAnswered tcs total
  unfolding answer_calls contains
  CallsAnswered-answer_calls [] ms total sat hs hm hr = tt
  CallsAnswered-answer_calls (tc ∷ tcs) ms total sat hs hm hr =
      elim (Bool-cases (contains tc.id sat || found_ahead tc.id ms)) [
        | inl skip ↦ (
          ground (arith, skip, hs tc.id, hm tc.id, found_ahead-any tc.id ms),
          CallsAnswered-answer_calls tcs ms total sat hs hm (λ id h. hr id (rw skip h)),
        )
        | inr made ↦ (
          hr tc.id (rw (made, str_eq_refl "tool", str_eq_refl tc.id)),
          CallsAnswered-answer_calls tcs ms total (tc.id ∷ sat) (λ id h. known id made h) hm
              (λ id h. hr id (rw made (later id h))),
        )
      ]
    where
      known :
          (id : String)
          → (contains tc.id sat || found_ahead tc.id ms) ≡ false
          → contains id (tc.id ∷ sat) ≡ true
          → any (is_result id) total ≡ true
      known id made h = elim (Bool-cases (tc.id =s= id)) [
        | inl e ↦ hr id (rw (made, str_eq_refl "tool", e))
        | inr e ↦ hs id (rw e at h)
      ]

      later :
          (id : String)
          → any (is_result id) (answer_calls tcs ms (tc.id ∷ sat)).0 ≡ true
          → any (is_result id) (interrupted tc.id ∷ (answer_calls tcs ms (tc.id ∷ sat)).0) ≡ true
      later id h = ground (arith, h)

  -- What the walk needs of the whole result `total`: it holds what the walk puts out from here, and
  -- an answer for each id that is already satisfied.
  record Covers (total ms : List (Message V)) (sat : List String) : Type 0 where
    output :
        (id : String)
        → any (is_result id) (repair_from ms sat) ≡ true
        → any (is_result id) total ≡ true
    known : (id : String) → contains id sat ≡ true → any (is_result id) total ≡ true

  -- An answer that is made up at this message stands in the result.
  answer-covered :
      (total ms : List (Message V)) (m : Message V) (sat : List String) (id : String)
      → Covers total (m ∷ ms) sat
      → any (is_result id) (answers m ms sat).0 ≡ true
      → any (is_result id) total ≡ true
  unfolding repair_from
  answer-covered total ms m sat id c h =
      let r = answers m ms sat in
      c.output id (ground (arith, h, any-append (is_result id) r.0 (repair_from ms r.1)))

  contains-answers :
      (id : String) (m : Message V) (ms : List (Message V)) (sat : List String)
      → contains id (answers m ms sat).1 ≡ true
      → (contains id sat ≡ true) ⊎ (any (is_result id) (answers m ms sat).0 ≡ true)
  unfolding answers
  contains-answers id m ms sat h = ground (arith, contains-answer_calls id m.tool_calls ms sat)

  Covers-step :
      (total ms : List (Message V)) (m : Message V) (sat : List String)
      → Covers total (m ∷ ms) sat
      → Covers total ms (answers m ms sat).1
  unfolding repair_from
  Covers-step total ms m sat c = record {
    output = λ id h.
        let r = answers m ms sat in
        c.output id (ground (arith, h, any-append (is_result id) r.0 (repair_from ms r.1)));
    known = λ id h. elim (contains-answers id m ms sat h) [
      | inl old ↦ c.known id old
      | inr made ↦ answer-covered total ms m sat id c made
    ];
  }

  AllAnswered-repair_from :
      (total ms : List (Message V)) (sat : List String) → Covers total ms sat → AllAnswered ms total
  unfolding repair_from answers
  AllAnswered-repair_from total [] sat c = tt
  AllAnswered-repair_from total (m ∷ ms) sat c = (
    here (m.role =s= "assistant") refl,
    AllAnswered-repair_from total ms (answers m ms sat).1 (Covers-step total ms m sat c),
  )
    where
      ahead : (id : String) → any (is_result id) ms ≡ true → any (is_result id) total ≡ true
      ahead id h =
          let r = answers m ms sat in
          c.output id (
            ground (
              arith,
              any-append (is_result id) r.0 (repair_from ms r.1),
              any-repair_from (is_result id) ms r.1 h,
            ))

      made :
          (m.role =s= "assistant") ≡ true
          → (id : String) → any (is_result id) (answer_calls m.tool_calls ms sat).0 ≡ true
          → any (is_result id) total ≡ true
      made e id h = answer-covered total ms m sat id c (rw (e, answers) h)

      here :
          (b : Bool)
          → (m.role =s= "assistant") ≡ b
          → (if b then CallsAnswered m.tool_calls total else Unit {0})
      here true e = CallsAnswered-answer_calls m.tool_calls ms total sat c.known ahead (made e)
      here false e = tt

  contains-satisfied_ids :
      (id : String) (ms : List (Message V))
      → contains id (satisfied_ids ms) ≡ true
      → any (is_result id) ms ≡ true
  unfolding satisfied_ids contains
  contains-satisfied_ids id [] h = h
  contains-satisfied_ids id (m ∷ ms) h = ground (arith, contains-satisfied_ids id ms)

  AllAnswered-append :
      (xs ys total : List (Message V))
      → AllAnswered xs total
      → AllAnswered ys total
      → AllAnswered (xs ++ ys) total
  AllAnswered-append [] ys total hx hy = hy
  AllAnswered-append (x ∷ xs) ys total hx hy = (hx.0, AllAnswered-append xs ys total hx.1 hy)

  -- A made-up answer is no assistant message, so it has no calls of its own.
  AllAnswered-answer_calls :
      (tcs : List (ToolCall V)) (ms total : List (Message V)) (sat : List String)
      → AllAnswered (answer_calls tcs ms sat).0 total
  unfolding answer_calls
  AllAnswered-answer_calls [] ms total sat = tt
  AllAnswered-answer_calls (tc ∷ tcs) ms total sat =
      elim (Bool-cases (contains tc.id sat || found_ahead tc.id ms)) [
        | inl e ↦ rw e (AllAnswered-answer_calls tcs ms total sat)
        | inr e ↦ rw (e, tool_role) (tt, AllAnswered-answer_calls tcs ms total (tc.id ∷ sat))
      ]

  AllAnswered-result :
      (ms total : List (Message V)) (sat : List String)
      → AllAnswered ms total
      → AllAnswered (repair_from ms sat) total
  unfolding repair_from
  AllAnswered-result [] total sat h = tt
  AllAnswered-result (m ∷ ms) total sat h =
      let r = answers m ms sat in
      (
        h.0,
        AllAnswered-append r.0 (repair_from ms r.1) total made
            (AllAnswered-result ms total r.1 h.1),
      )
    where
      made : AllAnswered (answers m ms sat).0 total
      made = elim (Bool-cases (m.role =s= "assistant")) [
        | inl e ↦ rw (e, answers) (AllAnswered-answer_calls m.tool_calls ms total sat)
        | inr e ↦ rw (e, answers) tt
      ]

  -- After the repair every tool call of every assistant message has a tool result with its id in the
  -- transcript, whatever the transcript was, with empty and repeated ids too.
  pub repair_orphaned_tool_calls-Complete :
      (ms : List (Message V)) → Complete (repair_orphaned_tool_calls ms)
  unfolding repair_orphaned_tool_calls
  repair_orphaned_tool_calls-Complete ms = AllAnswered-result ms total (satisfied_ids ms) (
      AllAnswered-repair_from total ms (satisfied_ids ms) (record {
        output = λ id h. h;
        known = λ id h.
            any-repair_from (is_result id) ms (satisfied_ids ms) (contains-satisfied_ids id ms h);
      }))
    where
      total : List (Message V)
      total = repair_from ms (satisfied_ids ms)
