-- ===== src/Epistemology/Examples.antt =====
-- Runs of pkg/epistemology/store.go with percentages as confidences.
use vikram.Base.{ℕ, true, ◌≡◌, refl, List, [], ◌∷◌, ◌=s=◌, ltb}
use vikram.Base.Map.{Map}
use vikram.Epistemology.{Fact, Query, Go, query}
use vikram.Epistemology.Refuted.{Call, assert, update, run, run_call, unseen, run-unseen}

abbrev go : Go ℕ
go = record {
  less = ltb;
  equal_fold = λ s t. s =s= t;
  contains = λ s t. s =s= t;
  to_lower = λ s. s;
}

abbrev likes_tea : Fact ℕ
likes_tea = record {
  id = "fact_1";
  subject = "User";
  predicate = "likes";
  object = "tea";
  confidence = 80;
  source = "chat";
  created_at = 1;
  updated_at = 2;
  refuted_by = "fact_2";
}

abbrev facts : Map (Fact ℕ)
facts = ("fact_1", likes_tea) ∷ []

abbrev anything : Query ℕ
anything = record { subject = ""; predicate = ""; object = ""; min_conf = 0 }

abbrev calls : List (Call ℕ)
calls = assert "User" "likes" "tea" "user" 100 "fact_3" 5 ∷ update "fact_1" 90 4 ∷ []

-- The user says again what was refuted, and no query shows it.
asserted_again : query go anything (run go calls facts) ≡ []
unfolding query run_call ◌=s=◌
asserted_again = refl

run-unseen_example : unseen go anything "fact_1" (run go calls facts) ≡ true
unfolding ◌=s=◌
run-unseen_example = run-unseen go anything "fact_1" calls facts refl refl
