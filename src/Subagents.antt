-- ===== src/Subagents.antt =====
-- pkg/tools/toolloop.go: `SubagentManager`, which routes a task to a team member by its identifier or
-- role and runs the tool loop for it. `P` stands for model providers, `T` for a tool registry, and
-- `V`, `W` are those of the tool loop; `environment` is the tool loop's view of a provider with a
-- model and tools. A panic of the goroutine of Spawn, its AsyncCtx and log output are left out.
pub mod Routing
pub mod Runs
mod Examples
use Prim.Native.String.{◌++◌ as text_append}
use vikram.Base.{
  ℕ, String, Bool, true, false, not, ◌&&◌, List, [], ◌∷◌, ◌++◌, Option, none, some, if◌then◌else◌,
  ◌=s=◌,
}
use vikram.Base.Int.{pos}
use vikram.Base.Map.{Map, lookup, insert, delete, retain}
use vikram.Base.Result.{Result, ok, err}
use vikram.Providers.{Message}
use vikram.ToolLoop.{Environment, ToolResult, ToolLoopResult, run_tool_loop}

-- history, summary, user message, media, channel, chat id
abbrev pub MessageBuilder : Type 0 → Type 0
MessageBuilder V =
    List (Message V) → String → String → List String → String → String → List (Message V)

pub record AgentEntry (P V : Type 0) : Type 0 where
  pub provider : P
  pub model : String
  pub msg_builder : Option (MessageBuilder V)
  pub system_prompt : String

pub record SubagentManager (P T V : Type 0) : Type 0 where
  pub provider : P
  pub model : String
  pub tools : Option T
  pub cli_providers : Map P
  pub msg_builder : Option (MessageBuilder V)
  pub agent_entries : Map (AgentEntry P V)
  pub role_to_id : Map String

abbrev pub or_entry : {A : Type 0} → A → Option A → A
or_entry d none = d
or_entry d (some e) = e

abbrev pub or_else : {A : Type 0} → Option A → Option A → Option A
or_else none b = b
or_else (some a) b = some a

pub registered_roles : Map String → List String
registered_roles [] = []
registered_roles ((role, i) ∷ roles) = role ∷ registered_roles roles

pub copied : {P : Type 0} → Map P → Map P
unfolding insert
copied [] = []
copied ((k, p) ∷ ps) = insert k p (copied ps)

module _ {P T V : Type 0} where
  pub new_subagent_manager : P → String → Map P → SubagentManager P T V
  new_subagent_manager provider model cli_providers = record {
    provider = provider;
    model = model;
    tools = none;
    cli_providers = cli_providers;
    msg_builder = none;
    agent_entries = [];
    role_to_id = [];
  }

  pub set_tools : Option T → SubagentManager P T V → SubagentManager P T V
  set_tools tools m = record m { tools = tools }

  pub set_message_builder :
      Option (MessageBuilder V) → SubagentManager P T V → SubagentManager P T V
  set_message_builder builder m = record m { msg_builder = builder }

  pub register_agent :
      String → String → AgentEntry P V → SubagentManager P T V → SubagentManager P T V
  unfolding insert ◌=s=◌
  register_agent agent_id role entry m = record m {
    agent_entries = insert agent_id entry m.agent_entries;
    role_to_id = if role =s= "" then m.role_to_id else insert role agent_id m.role_to_id;
  }

  unregister_found :
      String → Option (AgentEntry P V) → SubagentManager P T V → SubagentManager P T V × Bool
  unfolding retain delete
  unregister_found agent_id none m = (m, false)
  unregister_found agent_id (some entry) m = (
    record m {
      agent_entries = delete agent_id m.agent_entries;
      role_to_id = retain (λ k. not (k =s= agent_id)) m.role_to_id;
    },
    true,
  )

  pub unregister_agent : String → SubagentManager P T V → SubagentManager P T V × Bool
  unfolding unregister_found lookup
  unregister_agent agent_id m = unregister_found agent_id (lookup agent_id m.agent_entries) m

  -- The defaults, as an entry without a system prompt.
  abbrev pub fallback : SubagentManager P T V → AgentEntry P V
  fallback m = record {
    provider = m.provider;
    model = m.model;
    msg_builder = m.msg_builder;
    system_prompt = "";
  }

  pub role_entry : SubagentManager P T V → Option String → Option (AgentEntry P V)
  unfolding lookup
  role_entry m none = none
  role_entry m (some i) = lookup i m.agent_entries

  pub resolve_agent : String → SubagentManager P T V → AgentEntry P V
  unfolding lookup role_entry
  resolve_agent label m =
      or_entry (fallback m)
        (or_else (lookup label m.agent_entries) (role_entry m (lookup label m.role_to_id)))

  pub cli_providers_copy : SubagentManager P T V → Map P
  unfolding copied
  cli_providers_copy m = copied m.cli_providers

abbrev message_of : {V : Type 0} → String → String → Message V
message_of role content = record {
  role = role;
  content = content;
  tool_calls = [];
  tool_call_id = "";
}

-- The stub that stands in for a missing message builder.
pub stub_messages : {V : Type 0} → MessageBuilder V
unfolding ◌=s=◌
stub_messages history summary user_message media channel chat_id =
    (if summary =s= "" then [] else message_of "system" (text_append "Summary: " summary) ∷ [])
    ++ (if user_message =s= "" then [] else message_of "user" user_message ∷ [])

abbrev heading : String
heading = "\n\n## Role-Specific Instructions\n\n"

-- `strip` stands for strings.ReplaceAll of the heading's text by nothing. The system prompt in
-- `RunToolLoop`, and in `Spawn`.
pub with_prompt : {V : Type 0} → (String → String) → String → List (Message V) → List (Message V)
unfolding ◌=s=◌
with_prompt strip prompt [] = []
with_prompt strip prompt (msg ∷ msgs) =
    if not (prompt =s= "") && msg.role =s= "system"
    then record msg {
      content = text_append (Message.content msg) (text_append heading (strip prompt));
    }
      ∷ msgs
    else msg ∷ msgs

pub spawned_with_prompt :
    {V : Type 0} → (String → String) → String → List (Message V) → List (Message V)
unfolding ◌=s=◌
spawned_with_prompt strip prompt [] = []
spawned_with_prompt strip prompt (msg ∷ msgs) =
    if not (prompt =s= "") && msg.role =s= "system"
    then record msg {
      content = text_append (Message.content msg) (text_append heading (strip prompt));
    }
      ∷ msgs
    else msg ∷ msgs

abbrev built : {V : Type 0} → Option (MessageBuilder V) → MessageBuilder V
built none = stub_messages
built (some f) = f

pub prefixed : {A W : Type 0} → String → Result String A × W → Result String A × W
prefixed text (ok a, w) = (ok a, w)
prefixed text (err e, w) = (err (text_append text e), w)

-- What the goroutine of Spawn passes to the callback.
pub reported : {W : Type 0} → Result String ToolLoopResult × W → ToolResult × W
reported (ok r, w) = (record { for_llm = r.content; error = none; is_error = false }, w)
reported (err e, w) =
    (record { for_llm = text_append "Subagent failed: " e; error = none; is_error = true }, w)

-- `B` stands for message buses. The callback is only known to be there or not.
pub record ToolContext (B : Type 0) : Type 0 where
  pub channel : String
  pub chat_id : String
  pub session_key : String
  pub sender_id : String
  pub has_async : Bool
  pub bus : Option B

module _ {P T V W B : Type 0} (environment : P → String → T → ToolContext B → Environment W V)
    (strip : String → String) where
  pub first_messages : AgentEntry P V → String → String → String → List (Message V)
  unfolding with_prompt stub_messages
  first_messages entry task channel chat_id =
      with_prompt strip entry.system_prompt (built entry.msg_builder [] "" task [] channel chat_id)

  -- The context that `RunToolLoop` makes, with the manager's bus.
  pub loop_context : Option B → String → String → String → ToolContext B
  loop_context bus channel chat_id session_key = record {
    channel = channel;
    chat_id = chat_id;
    session_key = session_key;
    sender_id = "";
    has_async = false;
    bus = bus;
  }

  pub run_with :
      Option T
      → AgentEntry P V
      → Option B
      → String
      → String
      → String
      → String
      → W
      → Result String ToolLoopResult × W
  unfolding first_messages prefixed loop_context
  run_with none entry bus task channel chat_id session_key w = (err "subagent tools not set", w)
  run_with (some tools) entry bus task channel chat_id session_key w =
      prefixed "subagent failed: " (
        run_tool_loop
          (environment entry.provider entry.model tools
            (loop_context bus channel chat_id session_key))
          (pos 10) (first_messages entry task channel chat_id) w)

  -- `SubagentManager.RunToolLoop`
  pub run_subagent :
      SubagentManager P T V
      → Option B
      → String
      → String
      → String
      → String
      → String
      → W
      → Result String ToolLoopResult × W
  unfolding resolve_agent run_with
  run_subagent m bus task label channel chat_id session_key w =
      run_with m.tools (resolve_agent label m) bus task channel chat_id session_key w

  pub spawned_messages : AgentEntry P V → String → ToolContext B → List (Message V)
  unfolding spawned_with_prompt stub_messages
  spawned_messages entry task tc =
      spawned_with_prompt strip entry.system_prompt
        (built entry.msg_builder [] "" task [] tc.channel tc.chat_id)

  -- The goroutine of Spawn: what it passes to the callback, if there is one.
  pub spawned_loop : AgentEntry P V → T → String → ToolContext B → W → Option ToolResult × W
  unfolding spawned_messages reported
  spawned_loop entry tools task tc w =
      let r = reported (
        run_tool_loop (environment entry.provider entry.model tools tc) (pos 10)
          (spawned_messages entry task tc) w) in
      (if tc.has_async then some r.0 else none, r.1)

  pub spawn_with :
      Option T
      → AgentEntry P V
      → String
      → String
      → ToolContext B
      → W
      → Result String (String × Option ToolResult) × W
  unfolding spawned_loop
  spawn_with none entry task label tc w = (err "subagent tools not set", w)
  spawn_with (some tools) entry task label tc w =
      let r = spawned_loop entry tools task tc w in
      (
        ok (
          text_append "Subagent '" (text_append label (text_append "' spawned for task: " task)),
          r.0,
        ),
        r.1,
      )

  -- What Spawn returns at once, and what the callback is given when its goroutine has ended.
  pub spawn :
      SubagentManager P T V
      → String
      → String
      → ToolContext B
      → W
      → Result String (String × Option ToolResult) × W
  unfolding resolve_agent spawn_with
  spawn m task label tc w = spawn_with m.tools (resolve_agent label m) task label tc w
