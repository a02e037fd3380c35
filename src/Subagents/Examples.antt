-- ===== src/Subagents/Examples.antt =====
-- A manager of pkg/tools/toolloop.go with two registrations. A provider is a number, and its model
-- answers at once; the world counts the calls of the model.
use vikram.Base.{ℕ, suc, ◌≤◌, String, true, false, List, [], ◌∷◌, none, some, ◌≡◌, refl, ◌=s=◌}
use vikram.Base.Result.{ok}
use vikram.ToolLoop.{Environment, run_tool_loop}
use vikram.Subagents.{
  SubagentManager, AgentEntry, ToolContext, resolve_agent, register_agent, run_subagent, spawn,
}
use vikram.Subagents.Routing.{Call, registers, unregisters, route, run, resolve_agent-run}
use vikram.Subagents.Runs.{announced, run_subagent-spawn}

abbrev entry : ℕ → AgentEntry ℕ ℕ
entry p = record { provider = p; model = "m"; msg_builder = none; system_prompt = "Be brief." }

abbrev manager : SubagentManager ℕ ℕ ℕ
manager = record {
  provider = 0;
  model = "default";
  tools = some 0;
  cli_providers = [];
  msg_builder = none;
  agent_entries = [];
  role_to_id = [];
}

abbrev history : List (Call ℕ ℕ)
history = unregisters "b" ∷ registers "b" "writer" (entry 2) ∷ registers "a" "coder" (entry 1) ∷ []

resolve_agent-run_example : resolve_agent "coder" (run history manager) ≡ entry 1
unfolding route
resolve_agent-run_example = resolve_agent-run manager history "coder" refl refl

abbrev answering : ℕ → String → ℕ → ToolContext ℕ → Environment ℕ ℕ
answering provider model tools tc = record {
  chat = λ ms w. (ok (record { content = "done"; tool_calls = [] }), suc w);
  has_tools = true;
  execute = λ name args w. (record { for_llm = ""; error = none; is_error = false }, w);
  marshal = λ args. "{}";
}

abbrev called_back : ToolContext ℕ
called_back = record {
  channel = "cli";
  chat_id = "1";
  session_key = "s";
  sender_id = "ann";
  has_async = true;
  bus = none;
}

run_subagent-spawn_example :
    (1 ≤ 10)
    × (spawn answering (λ s. s) (run history manager) "fix" "coder" called_back 0 ≡ (
      ok (
        announced "coder" "fix",
        some (record { for_llm = "done"; error = none; is_error = false }),
      ),
      1,
    ))
unfolding run_subagent run_tool_loop resolve_agent run
run_subagent-spawn_example =
    run_subagent-spawn answering (λ s. s) (some 7) "fix" "coder" called_back 0 (run history manager)
      (record { content = "done"; iterations = 1 }) (λ p model t. refl) refl

-- An agent that registers again under another role is still found under the first one.
two_roles :
    resolve_agent "writer"
      (register_agent "a" "coder" (entry 2) (register_agent "a" "writer" (entry 1) manager))
    ≡ entry 2
unfolding resolve_agent register_agent ◌=s=◌
two_roles = refl
