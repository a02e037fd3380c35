-- ===== src/LoopDetect.antt =====
-- pkg/agent/tool_loop_detect.go: the detector of an agent that repeats its tool calls. The hashes of
-- a call and of a result (encoding/json and SHA-256) are parameters, and so is the type of arguments.
-- The number in a detection's message stands for the message.
pub mod Window
pub mod Tally
pub mod History
pub mod Detection
pub mod PingPong
pub mod NoProgress
mod Examples
use Prim.Native.String.{◌++◌ as text_append}
use vikram.Base.{
  ℕ, zero, suc, ◌+◌, ◌-◌, ◌%◌, String, Bool, true, false, not, ◌&&◌, ◌||◌, List, [], ◌∷◌, ◌++◌,
  Option, none, some, ◌=s=◌, ◌==◌, if◌then◌else◌, ltb, leb, length, drop, all, map,
}
use vikram.Base.Counts.{bump}
use vikram.Base.Map.{Map, lookup, insert, values}

abbrev pub loop_history_size : ℕ
loop_history_size = 30

abbrev pub loop_warn_threshold : ℕ
loop_warn_threshold = 10

abbrev pub loop_critical_threshold : ℕ
loop_critical_threshold = 20

abbrev pub loop_circuit_breaker : ℕ
loop_circuit_breaker = 30

abbrev pub loop_no_progress_consec : ℕ
loop_no_progress_consec = 5

abbrev pub loop_ping_pong_length : ℕ
loop_ping_pong_length = 8

pub data LoopSeverity : Type 0 where
  loop_none loop_warning loop_critical : LoopSeverity

pub record LoopDetection : Type 0 where
  pub severity : LoopSeverity
  pub kind : String
  pub count : ℕ

pub record CallRecord : Type 0 where
  pub tool_name : String
  pub args_hash : String

pub record OutcomeRecord : Type 0 where
  pub args_hash : String
  pub result_hash : String

pub record ToolLoopDetector : Type 0 where
  pub calls : List CallRecord
  pub outcomes : List OutcomeRecord
  pub total_counts : Map ℕ

abbrev pub no_detection : LoopDetection
no_detection = record { severity = loop_none; kind = ""; count = 0 }

module _ {A : Type 0} where
  abbrev pub last : ℕ → List A → List A
  last n xs = drop (length xs - n) xs

  -- The cap of a window.
  abbrev pub cap_window : List A → List A
  cap_window xs = if ltb loop_history_size (length xs) then last loop_history_size xs else xs

pub new_tool_loop_detector : ToolLoopDetector
new_tool_loop_detector = record { calls = []; outcomes = []; total_counts = [] }

module _ {Args : Type 0} (hash_tool_args : String → Args → String)
    (hash_result : String → String) where
  pub record_call : String → Args → ToolLoopDetector → ToolLoopDetector × String
  unfolding bump
  record_call tool_name args d =
      let h = hash_tool_args tool_name args in
      (
        record {
          calls = cap_window (d.calls ++ record { tool_name = tool_name; args_hash = h } ∷ []);
          outcomes = d.outcomes;
          total_counts = bump h d.total_counts;
        },
        h,
      )

  pub record_outcome : String → String → ToolLoopDetector → ToolLoopDetector
  record_outcome args_hash result d = record d {
    outcomes =
        cap_window
          (d.outcomes ++ record { args_hash = args_hash; result_hash = hash_result result } ∷ []);
  }

-- The first count that reaches the limit, in the order of the iteration.
pub first_over : List ℕ → Option ℕ
first_over [] = none
first_over (n ∷ ns) = if leb loop_circuit_breaker n then some n else first_over ns

abbrev tripped : Option ℕ → LoopDetection
tripped none = no_detection
tripped (some n) = record { severity = loop_critical; kind = "circuit_breaker"; count = n }

pub check_circuit_breaker : ToolLoopDetector → LoopDetection
unfolding first_over
check_circuit_breaker d = tripped (first_over (values d.total_counts))

abbrev pub key : CallRecord → String
key c = text_append c.tool_name (text_append ":" c.args_hash)

-- counts[key]++ for each of the keys.
pub tally : List String → Map ℕ → Map ℕ
unfolding bump
tally [] counts = counts
tally (k ∷ ks) counts = tally ks (bump k counts)

pub max_count : ℕ → List ℕ → ℕ
max_count max [] = max
max_count max (n ∷ ns) = max_count (if ltb max n then n else max) ns

pub generic_repeat : ℕ → LoopDetection
generic_repeat n =
    if leb loop_critical_threshold n
    then record { severity = loop_critical; kind = "generic_repeat"; count = n }
    else if leb loop_warn_threshold n
    then record { severity = loop_warning; kind = "generic_repeat"; count = n }
    else no_detection

pub check_generic_repeat : ToolLoopDetector → LoopDetection
unfolding tally max_count generic_repeat
check_generic_repeat d =
    if length d.calls == 0
    then no_detection
    else generic_repeat (max_count 0 (values (tally (map key d.calls) [])))

pub same_outcome : OutcomeRecord → OutcomeRecord → Bool
same_outcome first o = (o.args_hash =s= first.args_hash) && (o.result_hash =s= first.result_hash)

all_same : List OutcomeRecord → Bool
unfolding same_outcome
all_same [] = true
all_same (first ∷ os) = all (same_outcome first) os

pub check_no_progress : ToolLoopDetector → LoopDetection
unfolding all_same
check_no_progress d =
    if ltb (length d.outcomes) loop_no_progress_consec
    then no_detection
    else if all_same (last loop_no_progress_consec d.outcomes)
    then record { severity = loop_warning; kind = "no_progress"; count = loop_no_progress_consec }
    else no_detection

-- The loop over the tail from the index `i` on.
pub alternates : String → String → ℕ → List CallRecord → Bool
alternates a b i [] = true
alternates a b i (c ∷ cs) =
    (c.args_hash =s= (if i % 2 == 1 then b else a)) && alternates a b (suc i) cs

pub ping_pong : List CallRecord → Bool
unfolding alternates
ping_pong (c ∷ d ∷ cs) =
    if c.args_hash =s= d.args_hash then false else alternates c.args_hash d.args_hash 0 (c ∷ d ∷ cs)
ping_pong _ = false

pub check_ping_pong : ToolLoopDetector → LoopDetection
unfolding ping_pong
check_ping_pong d =
    if ltb (length d.calls) loop_ping_pong_length
    then no_detection
    else if ping_pong (last loop_ping_pong_length d.calls)
    then record { severity = loop_warning; kind = "ping_pong"; count = loop_ping_pong_length }
    else no_detection

abbrev pub is_found : LoopSeverity → Bool
is_found loop_none = false
is_found _ = true

abbrev pub or_else : LoopDetection → LoopDetection → LoopDetection
or_else d e = if is_found d.severity then d else e

pub check : ToolLoopDetector → LoopDetection
unfolding check_circuit_breaker check_generic_repeat check_no_progress check_ping_pong
check d =
    or_else (check_circuit_breaker d)
      (or_else (check_generic_repeat d) (or_else (check_no_progress d) (check_ping_pong d)))

-- What the agent's loop does with the detector.
pub data Event (Args : Type 0) : Type 0 where
  call_made : String → Args → Event Args
  call_ended : String → String → Event Args

module _ {Args : Type 0} (hash_tool_args : String → Args → String)
    (hash_result : String → String) where
  pub step : Event Args → ToolLoopDetector → ToolLoopDetector
  unfolding record_call record_outcome
  step (call_made tool_name args) d = (record_call hash_tool_args hash_result tool_name args d).0
  step (call_ended args_hash result) d =
      record_outcome hash_tool_args hash_result args_hash result d

  pub run : List (Event Args) → ToolLoopDetector → ToolLoopDetector
  unfolding step
  run [] d = d
  run (e ∷ es) d = run es (step e d)
