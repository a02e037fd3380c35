-- ===== src/Agent/LoopExamples.antt =====
-- Runs of runLLMIteration in pkg/agent/loop.go with a model whose key is refused. The world counts the
-- calls of the fallback model.
use vikram.Base.{
  ℕ, suc, String, true, false, not, ◌&&◌, ◌||◌, List, [], ◌∷◌, none, some, ◌≡◌, refl, ◌=s=◌,
}
use vikram.Base.Map.{lookup, insert}
use vikram.Base.Result.{ok, err}
use vikram.Providers.{ToolCall}
use vikram.LoopDetect.{new_tool_loop_detector}
use vikram.Agent.{Go, plain}
use vikram.Agent.Council.{
  Setting, Talk, council, recover_from, has_council, classify, notify, ask_fallback,
}
use vikram.Agent.Cooldowns.{
  Place, Op, loads, asks, recovers, after_council, step, run, primary_asks, SkipIsSeen,
  run-recovers,
}
use vikram.Agent.Iteration.{Workshop, ToolTurn, run_tool_calls}
use vikram.Agent.Turns.{Answered, run_tool_calls-Answered}

-- A text contains itself, and all but "401" and "429" contain the mark of a skipped model.
abbrev go : Go
go = record {
  has_prefix = λ s p. false;
  contains = λ s t. s =s= t || (t =s= "active cooldown cache" && not (s =s= "401" || s =s= "429"));
  byte_length = λ s. 15;
  itoa = λ n. "n";
}

abbrev setting : Setting ℕ ℕ
setting = record {
  model = "large";
  council_enabled = true;
  council_fallback = "small";
  session_key = "s";
  channel = "telegram";
  chat_id = "7";
  internal = false;
  primary = λ model tools ms w. (err "401", w);
  fallback_provider =
      some (λ model tools ms w. (ok (record { content = "done"; tool_calls = [] }), suc w));
  lower = λ s. s;
  go = go;
  system_prompt = λ sm. "You are Vikram.";
}

abbrev talk : Talk ℕ ℕ
talk = record {
  world = 0;
  cooldowns = [];
  sessions = record { sessions = [] };
  messages = plain "user" "hello" ∷ [];
  with_tools = true;
  sent = [];
  asked = [];
}

abbrev place : Place ℕ
place = record {
  session_key = "s";
  channel = "cli";
  chat_id = "8";
  internal = true;
  messages = plain "user" "again" ∷ [];
  with_tools = true;
}

-- Two requests, their steps mixed.
abbrev later_steps : List (Op ℕ)
later_steps =
    loads 10
    ∷ loads 11
    ∷ asks 1 place
    ∷ recovers 0 12 place
    ∷ asks 0 place
    ∷ loads 13
    ∷ recovers 0 14 place
    ∷ []

run-recovers_example :
    primary_asks setting
      (run setting
        (recovers 0 5 place ∷ later_steps)
        (record { talk = talk; waiting = []; results = err "401" ∷ [] })).talk
    ≡ 0
unfolding has_council classify SkipIsSeen ◌=s=◌
run-recovers_example = run-recovers setting 5 "401" place talk later_steps refl refl refl

-- A try that is under way when the model is banned ends the ban with its own cooldown.
abbrev overwriting : List (Op ℕ)
overwriting = recovers 0 5 place ∷ recovers 0 6 place ∷ []

ban_lost :
    lookup "large"
      (run setting overwriting
        (record { talk = talk; waiting = []; results = err "401" ∷ err "429" ∷ [] })).talk.cooldowns
    ≡ some 300_000_000_006
unfolding run step after_council council recover_from has_council classify notify ask_fallback
    lookup insert ◌=s=◌
ban_lost = refl

abbrev workshop : Workshop ℕ ℕ
workshop = record {
  setting = setting;
  execute = λ name args w.
      (record { for_llm = "a.go"; for_user = "listed"; silent = false; failure = none }, w);
  sends_response = true;
  marshal = λ args. "{}";
  hash_tool_args = λ name args. name;
  hash_result = λ s. s;
  cut = λ n s. s;
  detection_message = λ d. "stop";
  budget_error = λ w. none;
}

abbrev tool_call : String → ToolCall ℕ
tool_call i = record { id = i; kind = ""; function = none; name = "ls"; arguments = none }

abbrev first_turn : ToolTurn ℕ ℕ
first_turn = record {
  talk = talk;
  detector = new_tool_loop_detector;
  only_terminal = true;
  terminal_summary = "";
}

abbrev two_calls : List (ToolCall ℕ)
two_calls = tool_call "c1" ∷ tool_call "c2" ∷ []

run_tool_calls-Answered_example :
    Answered workshop 3 two_calls talk (run_tool_calls workshop 3 two_calls first_turn).talk
run_tool_calls-Answered_example = run_tool_calls-Answered workshop 3 two_calls first_turn
