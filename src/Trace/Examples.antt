-- ===== src/Trace/Examples.antt =====
-- Runs of pkg/telemetry/trace_verifier.go with a toy digest of two characters.
use Prim.Native.String.{◌++◌ as text_append, count}
use vikram.Base.{
  ℕ, ◌+◌, ◌*◌, String, ◌≡◌, refl, Bool, true, false, not, ◌||◌, ◌⊎◌, List, [], ◌∷◌, map, none, some,
  ◌=s=◌, ◌==◌, if◌then◌else◌,
}
use vikram.Base.Int.{pos}
use vikram.Base.Map.{lookup}
use vikram.Base.Result.{ok, err}
use vikram.Trace.{
  is_zero_int, TraceRecord, Go, TraceVerifier, new_trace_verifier, payload, join, format_timestamp,
  hash_mismatch, verify_batch,
}
use vikram.Trace.Canonical.{leaf, object, array, no_members, member, no_items, item, canonical_json}
use vikram.Trace.Chain.{Collision, verify_batch-fixes_texts}
use vikram.Trace.Writer.{Python, Decision, go_texts, trace_of, verdict, verify_batch-trace_of}
use vikram.Trace.Ticks.{Tick, after_ticks, passed, failed, after_ticks-Counted}

abbrev digest : String → String
digest t = if t =s= "0||send||now||escalate||1||{}||p||done||{}||g0" then "ab" else "cd"

abbrev go : Go ℕ String
go = record {
  sha256_hex = digest;
  sprintf_d = λ n. if is_zero_int n then "0" else "1";
  sprintf_g = λ _. "1";
  sprintf_6f = λ _. "1.000000";
  has_exponent = λ _. false;
  trim_zeros = λ s. s;
  ends_with_dot = λ _. false;
  quote = λ s. text_append "\"" (text_append s "\"");
  marshal = λ s. some s;
  sort_strings = λ ks. ks;
  sort_records = λ rs. rs;
}

abbrev first : TraceRecord ℕ String
first = record {
  sequence_number = pos 0;
  task_id = "send||now";
  decision_type = "escalate";
  timestamp = 1;
  state_snapshot = none;
  policy_evaluated = "p";
  outcome = "done";
  non_deterministic_inputs = none;
  previous_hash = "g0";
  record_hash = "ab";
}

abbrev second : TraceRecord ℕ String
second = record first { sequence_number = pos 1; previous_hash = "ab"; record_hash = "cd" }

abbrev trace : List (TraceRecord ℕ String)
trace = first ∷ second ∷ []

-- The bars between two fields of the first record stand for others: the texts are the same.
abbrev other_trace : List (TraceRecord ℕ String)
other_trace =
    record first { task_id = "send"; decision_type = "now||escalate" }
    ∷ record second { task_id = "send"; decision_type = "now||escalate" }
    ∷ []

abbrev verifier : TraceVerifier ℕ String
verifier = new_trace_verifier 2 "g0"

trace-verified : verify_batch go trace verifier ≡ ok tt
unfolding verify_batch new_trace_verifier ◌=s=◌
trace-verified = refl

other_trace-verified : verify_batch go other_trace verifier ≡ ok tt
unfolding verify_batch new_trace_verifier ◌=s=◌
other_trace-verified = refl

nested_json :
    canonical_json go.quote go.marshal go.sort_strings (
      some (
        member "a"
          (array (item (leaf "1") (item (leaf "2") no_items)))
          (member "b" (object no_members) no_members)))
    ≡ "{\"a\":[1,2],\"b\":{}}"
unfolding canonical_json ◌=s=◌ lookup
nested_json = refl

two_characters : (b : Bool) → count (if b then "ab" else "cd") ≡ 2
two_characters true = refl
two_characters false = refl

digest-length : (t : String) → count (digest t) ≡ 2
digest-length t = two_characters (t =s= "0||send||now||escalate||1||{}||p||done||{}||g0")

verify_batch-fixes_texts_example :
    (map (payload go) trace ≡ map (payload go) other_trace)
    ⊎ Collision go (map (payload go) trace) (map (payload go) other_trace)
unfolding new_trace_verifier
verify_batch-fixes_texts_example =
    verify_batch-fixes_texts go 2 digest-length first
      (record first { task_id = "send"; decision_type = "now||escalate" }) (second ∷ [])
      (record second { task_id = "send"; decision_type = "now||escalate" } ∷ []) verifier
      trace-verified other_trace-verified refl refl refl refl

-- Texts for digests. Python writes 7 as 7.0, Go as 7; both write 1 as 1.
abbrev open_go : Go ℕ String
open_go = record go { sha256_hex = λ t. t; sprintf_g = λ n. if n == 7 then "7" else "1" }

abbrev python : Python ℕ String
python = record {
  sha256_hex = λ t. t;
  texts = record {
    str_int = go.sprintf_d;
    str_float = λ n. if n == 7 then "7.0" else "1";
    dumps = λ m. canonical_json go.quote go.marshal go.sort_strings (some m);
  };
}

abbrev decided_at : ℕ → Decision ℕ String
decided_at time = record {
  time = time;
  task_id = "send";
  decision_type = "escalate";
  state_snapshot = no_members;
  policy = "p";
  outcome = "done";
  nd_inputs = none;
}

abbrev decisions : List (Decision ℕ String)
decisions = decided_at 1 ∷ decided_at 7 ∷ decided_at 1 ∷ []

verify_batch-trace_of_example :
    verify_batch open_go (trace_of python "g0" decisions).records verifier
    ≡ verdict python (go_texts open_go) "g0" decisions
unfolding new_trace_verifier
verify_batch-trace_of_example =
    verify_batch-trace_of open_go python "g0" (λ t. refl) decisions verifier refl refl

-- The second record of the trace is refused.
second_refused : verdict python (go_texts open_go) "g0" decisions ≡ err (hash_mismatch (pos 1))
unfolding verdict format_timestamp trace_of canonical_json join ◌=s=◌
second_refused = refl

abbrev ticks : List (Tick ℕ String)
ticks =
    record { total = ok 4; records = ok (second ∷ first ∷ []); now = 30 }
    ∷ record { total = err "timeout"; records = ok []; now = 20 }
    ∷ record { total = ok 2; records = ok trace; now = 10 }
    ∷ []

after_ticks-Counted_example :
    ((after_ticks go verifier ticks).next_seq
      ≡ verifier.next_seq + passed go verifier ticks * verifier.batch_size)
    × ((after_ticks go verifier ticks).alerts ≡ verifier.alerts + failed go verifier ticks)
    × ((after_ticks go verifier ticks).batch_size ≡ verifier.batch_size)
    × ((after_ticks go verifier ticks).violation_detected
        ≡ (verifier.violation_detected || not (failed go verifier ticks == 0)))
after_ticks-Counted_example = after_ticks-Counted go verifier ticks
