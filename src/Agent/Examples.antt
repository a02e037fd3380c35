-- ===== src/Agent/Examples.antt =====
-- Runs of the history functions of pkg/agent with a toy library of Go.
use vikram.Base.{
  String, Bool, ◌||◌, ◌||◌, ℕ, ◌/◌, false, not, ◌&&◌, ◌≡◌, refl, List, [], ◌∷◌, ◌++◌, none, ◌=s=◌,
  if◌then◌else◌, length, drop, leb, arith,
}
use vikram.Base.Map.{lookup, insert}
use vikram.Providers.{Message}
use vikram.Session.{SessionManager, get_history, last}
use vikram.Agent.{Go, plain, compress_history, compression_note, force_compression, store_summary}
use vikram.Agent.Errors.{is_context_window_error}
use vikram.Agent.Compression.{get_history-force_compression}
use vikram.Agent.Summaries.{store_summary-arrived}

abbrev go : Go
go = record {
  has_prefix = λ s p. s =s= "Observation: 42";
  contains = λ s t. false;
  byte_length = λ s. 15;
  itoa = λ n. "n";
}

abbrev call : Message ℕ
call = record {
  role = "assistant";
  content = "";
  tool_calls =
      record { id = "c1"; kind = "function"; function = none; name = "exec"; arguments = none }
      ∷ [];
  tool_call_id = "";
}

abbrev answer : Message ℕ
answer = record (plain "tool" "Observation: 42") { tool_call_id = "c1" }

abbrev thanks : Message ℕ
thanks = plain "user" "thanks"

abbrev five : List (Message ℕ)
five = thanks ∷ thanks ∷ thanks ∷ thanks ∷ thanks ∷ []

abbrev long : List (Message ℕ)
long = call ∷ answer ∷ thanks ∷ five

-- The elided answer no longer carries the id of its call.
answer-elided :
    compress_history go long
    ≡ call
      ∷ record (plain "tool" "[earlier observation elided — n chars]") { tool_call_id = "" }
      ∷ thanks
      ∷ five
unfolding compress_history ◌=s=◌
answer-elided = refl

abbrev manager : List (Message ℕ) → SessionManager ℕ
manager ms = record {
  sessions =
      ("s", record { key = "s"; messages = ms; summary = "earlier"; created = 1; updated = 1 })
      ∷ [];
}

abbrev cut : List (Message ℕ)
cut = thanks ∷ call ∷ answer ∷ thanks ∷ thanks ∷ []

-- The cut between a call and its answer leaves the answer behind the note.
answer-orphaned :
    get_history "s" (force_compression go "s" 5 (manager cut))
    ≡ compression_note go 2 ∷ answer ∷ thanks ∷ thanks ∷ []
unfolding force_compression ◌=s=◌ lookup insert get_history
answer-orphaned = refl

get_history-force_compression_example :
    get_history "s" (force_compression go "s" 5 (manager cut)) ≡ (
      if not (leb (length (get_history "s" (manager cut))) 4) && ("s" =s= "s")
      then compression_note go (length (get_history "s" (manager cut)) / 2)
        ∷ drop (length (get_history "s" (manager cut)) / 2) (get_history "s" (manager cut))
      else get_history "s" (manager cut))
get_history-force_compression_example = get_history-force_compression go "s" "s" 5 (manager cut)

summary-stored : ("a talk" =s= "") ≡ false
unfolding ◌=s=◌
summary-stored = refl

all-there : get_history "s" (manager (cut ++ five)) ≡ cut ++ five
unfolding get_history lookup ◌=s=◌
all-there = refl

store_summary-arrived_example :
    get_history "s" (store_summary "s" "a talk" 9 (manager (cut ++ five))) ≡ last 4 five
store_summary-arrived_example =
    store_summary-arrived "s" "a talk" 9 (manager (cut ++ five)) cut five summary-stored all-there
      (omega arith)

-- A request for 14290 tokens is answered with a message that contains "429", the number of an HTTP
-- status that is excluded.
abbrev some_patterns : String → String → Bool
some_patterns message p = p =s= "429" || p =s= "maximum context length"

digits-excluded :
    is_context_window_error some_patterns
      (λ m. m)
      "this model's maximum context length is 8192 tokens, but 14290 were requested"
    ≡ false
unfolding is_context_window_error ◌=s=◌
digits-excluded = refl
