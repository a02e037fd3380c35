-- ===== src/ToolLoop/Examples.antt =====
-- Runs of pkg/tools/toolloop.go with a model that asks for the same tool every time. The world counts
-- the calls of the model.
use vikram.Base.{
  ℕ, suc, ◌≤◌, ◌≡◌, refl, true, false, List, [], ◌∷◌, none, arith, leb, if◌then◌else◌, ◌=s=◌,
}
use vikram.Base.Int.{pos}
use vikram.Base.Result.{ok}
use vikram.Providers.{Message, LlmResponse}
use vikram.Session.Repair.Complete.{Complete}
use vikram.ToolLoop.{Environment, run_tool_loop}
use vikram.ToolLoop.Transcript.{run_tool_loop_inv}
use vikram.ToolLoop.Iterations.{AlwaysCalls, run_tool_loop_exhausted}

abbrev asking : LlmResponse ℕ
asking = record {
  content = "working";
  tool_calls = record { id = "c"; kind = ""; function = none; name = "ls"; arguments = none } ∷ [];
}

abbrev stubborn : Environment ℕ ℕ
stubborn = record {
  chat = λ ms w. (ok asking, suc w);
  has_tools = true;
  execute = λ name args w. (record { for_llm = "a.go"; error = none; is_error = false }, w);
  marshal = λ args. "{}";
}

-- A model that answers at its third call.
abbrev helpful : Environment ℕ ℕ
helpful = record stubborn {
  chat = λ ms w.
      (ok (if leb 2 w then record { content = "done"; tool_calls = [] } else asking), suc w);
}

abbrev start : List (Message ℕ)
start = record { role = "user"; content = "list"; tool_calls = []; tool_call_id = "" } ∷ []

helpful_answers :
    run_tool_loop helpful (pos 10) start 0 ≡ (ok (record { content = "done"; iterations = 3 }), 3)
unfolding run_tool_loop ◌=s=◌
helpful_answers = refl

stubborn-AlwaysCalls : AlwaysCalls stubborn
stubborn-AlwaysCalls ms w = (asking, suc w, refl, λ e. cc e)

run_tool_loop_exhausted_example :
    (run_tool_loop stubborn (pos 10) start 0).0 ≡ ok (record { content = ""; iterations = 10 })
run_tool_loop_exhausted_example =
    run_tool_loop_exhausted stubborn (pos 10) start 0 stubborn-AlwaysCalls

start-Complete : Complete start
unfolding ◌=s=◌
start-Complete = (tt, tt)

run_tool_loop_inv_example : 1 ≤ (run_tool_loop stubborn (pos 2) start 1).1
run_tool_loop_inv_example =
    run_tool_loop_inv stubborn (λ w. 1 ≤ w) (λ ms w c h. omega arith) (λ name args w h. h) (pos 2)
      start 1 start-Complete (omega arith)
