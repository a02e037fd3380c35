-- ===== src/Epistemology.antt =====
-- pkg/epistemology/store.go and types.go: the knowledge graph in a JSON file, as far as memory goes. `F`
-- stands for float64; `Go` holds what the code takes from Go's library. Identifiers of new facts, which
-- the source makes of the clock, are arguments.
pub mod Refuted
mod Examples
use vikram.Base.{
  String, Bool, true, false, not, ◌&&◌, ◌||◌, List, [], ◌∷◌, Option, none, some, ◌=s=◌,
  if◌then◌else◌, keep,
}
use vikram.Base.Map.{Map, lookup, insert, values}
use vikram.Base.Time.{Time}

pub record Fact (F : Type 0) : Type 0 where
  pub id : String
  pub subject : String
  pub predicate : String
  pub object : String
  pub confidence : F
  pub source : String
  pub created_at : Time
  pub updated_at : Time
  pub refuted_by : String

-- Empty texts are not looked at.
pub record Query (F : Type 0) : Type 0 where
  pub subject : String
  pub predicate : String
  pub object : String
  pub min_conf : F

pub record Go (F : Type 0) : Type 0 where
  pub less : F → F → Bool
  pub equal_fold : String → String → Bool
  pub contains : String → String → Bool
  pub to_lower : String → String

module _ {F : Type 0} where
  -- What UpdateConfidence does with the fact it has found, or without one.
  pub with_confidence : String → F → Time → Map (Fact F) → Option (Fact F) → Map (Fact F) × Bool
  unfolding insert
  with_confidence id confidence now facts none = (facts, false)
  with_confidence id confidence now facts (some fact) =
      (insert id (record fact { confidence = confidence; updated_at = now }) facts, true)

  pub update_confidence : String → F → Time → Map (Fact F) → Map (Fact F) × Bool
  unfolding lookup with_confidence
  update_confidence id confidence now facts =
      with_confidence id confidence now facts (lookup id facts)

  -- What RefuteFact does with the target, if the refuting fact is there.
  pub with_refutation :
      String
      → String
      → Time
      → Map (Fact F)
      → Option (Fact F)
      → Option (Fact F)
      → Map (Fact F) × Bool
  unfolding insert
  with_refutation target refuting now facts none other = (facts, false)
  with_refutation target refuting now facts (some fact) none = (facts, false)
  with_refutation target refuting now facts (some fact) (some other) =
      (insert target (record fact { refuted_by = refuting; updated_at = now }) facts, true)

  pub refute_fact : String → String → Time → Map (Fact F) → Map (Fact F) × Bool
  unfolding lookup with_refutation
  refute_fact target refuting now facts =
      with_refutation target refuting now facts (lookup target facts) (lookup refuting facts)

  -- What AssertFact does with the duplicate, or without one.
  pub asserted : Fact F → Map (Fact F) → Option (String × Fact F) → Map (Fact F) × String
  unfolding insert
  asserted new facts (some (id, f)) = (
    insert id
        (record f { confidence = new.confidence; source = new.source; updated_at = new.updated_at })
        facts,
    id,
  )
  asserted new facts none = (insert new.id new facts, new.id)

  module _ (go : Go F) where
    pub same_fact : String → String → String → Fact F → Bool
    same_fact subject predicate object f =
        go.equal_fold f.subject subject
        && go.equal_fold f.predicate predicate
        && go.equal_fold f.object object

    -- The loop that looks for a duplicate.
    pub find_same : String → String → String → Map (Fact F) → Option (String × Fact F)
    unfolding same_fact
    find_same subject predicate object [] = none
    find_same subject predicate object ((id, f) ∷ facts) =
        if same_fact subject predicate object f
        then some (id, f)
        else find_same subject predicate object facts

    pub assert_fact :
        String → String → String → String → F → String → Time → Map (Fact F) → Map (Fact F) × String
    unfolding find_same asserted
    assert_fact subject predicate object source confidence new_id now facts =
        asserted
          (record {
            id = new_id;
            subject = subject;
            predicate = predicate;
            object = object;
            confidence = confidence;
            source = source;
            created_at = now;
            updated_at = now;
            refuted_by = "";
          })
          facts (find_same subject predicate object facts)

    -- The tests of Query on one fact.
    pub passes : Query F → Fact F → Bool
    passes q f =
        f.refuted_by =s= ""
        && not (go.less f.confidence q.min_conf)
        && (q.subject =s= "" || go.equal_fold f.subject q.subject)
        && (q.predicate =s= "" || go.equal_fold f.predicate q.predicate)
        && (q.object =s= "" || go.contains (go.to_lower f.object) (go.to_lower q.object))

    pub query : Query F → Map (Fact F) → List (Fact F)
    unfolding passes
    query q facts = keep (passes q) (values facts)
