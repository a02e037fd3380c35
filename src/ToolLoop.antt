-- ===== src/ToolLoop.antt =====
-- pkg/tools/toolloop.go, RunToolLoop: the loop of model calls and tool calls of a subagent. The
-- language model and the tools are parameters that read and change a world `W`; `V` stands for
-- interface{} and `marshal` for encoding/json on a call's arguments.
pub mod Transcript
pub mod Iterations
mod Examples
use Prim.Native.String.{◌++◌ as text_append}
use vikram.Base.{
  ℕ, zero, suc, ◌+◌, String, Bool, true, false, not, ◌&&◌, List, [], ◌∷◌, ◌++◌, Option, none, some,
  map, ◌=s=◌, if◌then◌else◌,
}
use vikram.Base.Int.{ℤ, pos_part}
use vikram.Base.Map.{Map}
use vikram.Base.Result.{Result, ok, err}
use vikram.Providers.{Message, ToolCall, LlmResponse}

pub record ToolResult : Type 0 where
  pub for_llm : String
  pub error : Option String
  pub is_error : Bool

-- The provider and the tool registry; `has_tools` is false where `config.Tools` is nil.
pub record Environment (W V : Type 0) : Type 0 where
  pub chat : List (Message V) → W → Result String (LlmResponse V) × W
  pub has_tools : Bool
  pub execute : String → Option (Map V) → W → ToolResult × W
  pub marshal : Option (Map V) → String

pub record ToolLoopResult : Type 0 where
  pub content : String
  pub iterations : ℕ

error_text : Option String → String
error_text none = ""
error_text (some e) = e

-- What the model reads of a tool's result.
pub content_for_llm : ToolResult → String
unfolding error_text
content_for_llm r =
    let c = if r.for_llm =s= "" then error_text r.error else r.for_llm in
    if not (c =s= "") && not r.is_error
    then text_append "<tool_output>\n" (text_append c "\n</tool_output>")
    else c

abbrev no_tools : ToolResult
no_tools = record { for_llm = "No tools available"; error = none; is_error = true }

module _ {W V : Type 0} (env : Environment W V) where
  requested_call : ToolCall V → ToolCall V
  requested_call tc = record {
    id = tc.id;
    kind = "function";
    function = some (record { name = tc.name; arguments = env.marshal tc.arguments });
    name = "";
    arguments = none;
  }

  pub assistant_message : LlmResponse V → Message V
  unfolding requested_call
  assistant_message response = record {
    role = "assistant";
    content = response.content;
    tool_calls = map requested_call response.tool_calls;
    tool_call_id = "";
  }

  run_tool : ToolCall V → W → ToolResult × W
  run_tool tc w = if env.has_tools then env.execute tc.name tc.arguments w else (no_tools, w)

  -- The inner loop: one tool message for each call, in the order of the calls.
  pub execute_calls : List (ToolCall V) → W → List (Message V) × W
  unfolding run_tool content_for_llm
  execute_calls [] w = ([], w)
  execute_calls (tc ∷ tcs) w =
      let r = run_tool tc w in
      let rest = execute_calls tcs r.1 in
      (
        record {
          role = "tool";
          content = content_for_llm r.0;
          tool_calls = [];
          tool_call_id = tc.id;
        }
            ∷ rest.0,
        rest.1,
      )

pub data Turn (W V : Type 0) : Type 0 where
  failed : String → W → Turn W V
  finished : String → W → Turn W V
  continues : List (Message V) → W → Turn W V

module _ {W V : Type 0} (env : Environment W V) where
  respond : List (Message V) → LlmResponse V → List (ToolCall V) → W → Turn W V
  unfolding assistant_message execute_calls
  respond messages response [] w = finished response.content w
  respond messages response (tc ∷ tcs) w =
      let r = execute_calls env (tc ∷ tcs) w in
      continues ((messages ++ assistant_message env response ∷ []) ++ r.0) r.1

  answer : List (Message V) → Result String (LlmResponse V) × W → Turn W V
  unfolding respond
  answer messages (ok response, w) = respond messages response response.tool_calls w
  answer messages (err e, w) = failed (text_append "LLM call failed: " e) w

  -- One iteration of the loop.
  pub turn : List (Message V) → W → Turn W V
  unfolding answer
  turn messages w = answer messages (env.chat messages w)

  -- `remaining` is MaxIterations - iteration.
  pub loop : ℕ → ℕ → List (Message V) → W → Result String ToolLoopResult × W
  unfolding turn
  loop zero iteration messages w = (ok (record { content = ""; iterations = iteration }), w)
  loop (suc remaining) iteration messages w = elim (turn messages w) [
    | failed e w' ↦ (err e, w')
    | finished content w' ↦ (ok (record { content = content; iterations = iteration + 1 }), w')
    | continues messages' w' ↦ loop remaining (iteration + 1) messages' w'
  ]

  unfoldable pub run_tool_loop : ℤ → List (Message V) → W → Result String ToolLoopResult × W
  unfolding loop
  run_tool_loop max_iterations messages w = loop (pos_part max_iterations) 0 messages w
