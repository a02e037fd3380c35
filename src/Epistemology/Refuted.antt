-- ===== src/Epistemology/Refuted.antt =====
-- pkg/epistemology/store.go: a refuted fact is out of every answer for good.
use vikram.Base.{
  String, Bool, true, not, ◌&&◌, ◌||◌, ◌≡◌, refl, List, [], ◌∷◌, Option, none, some, Bool-cases,
  inl, inr, ◌=s=◌, str_eq_iff, all, arith,
}
use vikram.Base.Map.{Map, lookup, insert}
use vikram.Base.Time.{Time}
use vikram.Epistemology.{
  Fact, Query, Go, update_confidence, refute_fact, same_fact, find_same, with_confidence,
  with_refutation, asserted, assert_fact, passes,
}

pub data Call (F : Type 0) : Type 0 where
  assert : String → String → String → String → F → String → Time → Call F
  update : String → F → Time → Call F
  refute : String → String → Time → Call F

module _ {F : Type 0} where
  -- A new fact does not take this identifier, and a refuting fact has one.
  abbrev pub leaves : String → Call F → Bool
  leaves target (assert subject predicate object source confidence new_id now) =
      not (new_id =s= target)
  leaves target (update id confidence now) = true
  leaves target (refute id refuting now) = not (refuting =s= "")

  abbrev refuted : Fact F → Bool
  refuted f = not (f.refuted_by =s= "")

  -- Every fact that is stored under the identifier is refuted.
  abbrev pub all_refuted : String → Map (Fact F) → Bool
  all_refuted target [] = true
  all_refuted target ((id, f) ∷ facts) =
      (not (id =s= target) || refuted f) && all_refuted target facts

  insert-refuted :
      (target id : String) (f : Fact F) (facts : Map (Fact F))
      → ((id =s= target) ≡ true → refuted f ≡ true)
      → all_refuted target facts ≡ true
      → all_refuted target (insert id f facts) ≡ true
  unfolding insert
  insert-refuted target id f [] h r = ground arith
  insert-refuted target id f ((j, g) ∷ facts) h r = ground (
    arith,
    insert-refuted target id f facts,
    str_eq_iff j id,
    str_eq_iff id target,
    str_eq_iff j target,
  )

  -- What a look-up finds is refuted, if it is the target that was looked up.
  abbrev Sound : String → Option (String × Fact F) → Type 0
  Sound target none = Unit
  Sound target (some (id, f)) = (id =s= target) ≡ true → refuted f ≡ true

  abbrev under : String → Option (Fact F) → Option (String × Fact F)
  under id none = none
  under id (some f) = some (id, f)

  lookup-Sound :
      (target id : String) (facts : Map (Fact F))
      → all_refuted target facts ≡ true
      → Sound target (under id (lookup id facts))
  unfolding lookup
  lookup-Sound target id [] r = tt
  lookup-Sound target id ((j, g) ∷ facts) r = elim (Bool-cases (j =s= id)) [
    | inl t ↦ rw t (λ e. ground (arith, str_eq_iff j id, str_eq_iff id target, str_eq_iff j target))
    | inr f ↦ rw f (lookup-Sound target id facts (ground arith))
  ]

  find_same-Sound :
      (go : Go F) (subject predicate object target : String) (facts : Map (Fact F))
      → all_refuted target facts ≡ true
      → Sound target (find_same go subject predicate object facts)
  unfolding find_same
  find_same-Sound go subject predicate object target [] r = tt
  find_same-Sound go subject predicate object target ((j, g) ∷ facts) r =
      elim (Bool-cases (same_fact go subject predicate object g)) [
        | inl t ↦ rw t (λ e. ground arith)
        | inr f ↦ rw f (find_same-Sound go subject predicate object target facts (ground arith))
      ]

  with_confidence-refuted :
      (target id : String) (confidence : F) (now : Time) (facts : Map (Fact F))
      (o : Option (Fact F))
      → Sound target (under id o)
      → all_refuted target facts ≡ true
      → all_refuted target (with_confidence id confidence now facts o).0 ≡ true
  unfolding with_confidence
  with_confidence-refuted target id confidence now facts none s r = r
  with_confidence-refuted target id confidence now facts (some f) s r =
      insert-refuted target id _ facts s r

  with_refutation-refuted :
      (target id refuting : String) (now : Time) (facts : Map (Fact F)) (o other : Option (Fact F))
      → not (refuting =s= "") ≡ true
      → all_refuted target facts ≡ true
      → all_refuted target (with_refutation id refuting now facts o other).0 ≡ true
  unfolding with_refutation
  with_refutation-refuted target id refuting now facts none other h r = r
  with_refutation-refuted target id refuting now facts (some f) none h r = r
  with_refutation-refuted target id refuting now facts (some f) (some other) h r =
      insert-refuted target id _ facts (λ e. h) r

  asserted-refuted :
      (target : String) (new : Fact F) (facts : Map (Fact F)) (o : Option (String × Fact F))
      → Sound target o
      → not (new.id =s= target) ≡ true
      → all_refuted target facts ≡ true
      → all_refuted target (asserted new facts o).0 ≡ true
  unfolding asserted
  asserted-refuted target new facts (some (id, f)) s n r = insert-refuted target id _ facts s r
  asserted-refuted target new facts none s n r =
      insert-refuted target new.id new facts (λ e. ground arith) r

  module _ (go : Go F) where
    unfoldable pub run_call : Call F → Map (Fact F) → Map (Fact F)
    unfolding assert_fact update_confidence refute_fact
    run_call (assert subject predicate object source confidence new_id now) facts =
        (assert_fact go subject predicate object source confidence new_id now facts).0
    run_call (update id confidence now) facts = (update_confidence id confidence now facts).0
    run_call (refute id refuting now) facts = (refute_fact id refuting now facts).0

    -- The facts after the calls; the latest comes first.
    abbrev pub run : List (Call F) → Map (Fact F) → Map (Fact F)
    run [] facts = facts
    run (c ∷ cs) facts = run_call c (run cs facts)

    run_call-refuted :
        (target : String) (c : Call F) (facts : Map (Fact F))
        → leaves target c ≡ true
        → all_refuted target facts ≡ true
        → all_refuted target (run_call c facts) ≡ true
    unfolding run_call assert_fact update_confidence refute_fact
    run_call-refuted target (assert subject predicate object source confidence new_id now) facts h
          r =
        asserted-refuted target _ facts _
          (find_same-Sound go subject predicate object target facts r) h r
    run_call-refuted target (update id confidence now) facts h r =
        with_confidence-refuted target id confidence now facts _ (lookup-Sound target id facts r) r
    run_call-refuted target (refute id refuting now) facts h r =
        with_refutation-refuted target id refuting now facts _ _ h r

    run-refuted :
        (target : String) (cs : List (Call F)) (facts : Map (Fact F))
        → all (leaves target) cs ≡ true
        → all_refuted target facts ≡ true
        → all_refuted target (run cs facts) ≡ true
    run-refuted target [] facts h r = r
    run-refuted target (c ∷ cs) facts h r =
        run_call-refuted target c (run cs facts) (ground arith)
          (run-refuted target cs facts (ground arith) r)

    -- No fact under the identifier is in the answer to the query.
    abbrev pub unseen : Query F → String → Map (Fact F) → Bool
    unseen q target [] = true
    unseen q target ((id, f) ∷ facts) =
        not (id =s= target && passes go q f) && unseen q target facts

    refuted-unseen :
        (q : Query F) (target : String) (facts : Map (Fact F))
        → all_refuted target facts ≡ true
        → unseen q target facts ≡ true
    unfolding passes
    refuted-unseen q target [] r = refl
    refuted-unseen q target ((id, f) ∷ facts) r = ground (arith, refuted-unseen q target facts)

    -- Once every fact under an identifier is refuted, then after any calls of AssertFact, UpdateConfidence
    -- and RefuteFact, none of which gives that identifier to a new fact or names a refuting fact with an
    -- empty identifier, no query answers with a fact under it.
    pub run-unseen :
        (q : Query F) (target : String) (cs : List (Call F)) (facts : Map (Fact F))
        → all (leaves target) cs ≡ true
        → all_refuted target facts ≡ true
        → unseen q target (run cs facts) ≡ true
    run-unseen q target cs facts h r =
        refuted-unseen q target (run cs facts) (run-refuted target cs facts h r)
