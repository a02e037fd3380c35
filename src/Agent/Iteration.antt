-- ===== src/Agent/Iteration.antt =====
-- pkg/agent/loop.go, runLLMIteration: the loop of requests and tool calls of the agent. A request is
-- that of Agent/Council; tools, hashes and the cut of a long text are parameters, and the clock of an
-- iteration is an argument. The tokens that a budget records and log output are left out.
use Prim.Native.String.{◌++◌ as text_append}
use vikram.Base.{
  ℕ, zero, suc, ◌+◌, String, Bool, true, false, not, ◌&&◌, List, [], ◌∷◌, ◌++◌, map, Option, none,
  some, if◌then◌else◌, ◌=s=◌, ltb,
}
use vikram.Base.Map.{Map}
use vikram.Base.Time.{Time}
use vikram.Base.Result.{Result, ok, err}
use vikram.Providers.{Message, ToolCall, LlmResponse}
use vikram.Session.{add_full_message}
use vikram.LoopDetect.{
  ToolLoopDetector, LoopDetection, LoopSeverity, record_call, record_outcome, check,
  new_tool_loop_detector,
}
use vikram.Agent.{is_terminal_tool_call}
use vikram.Agent.Council.{Setting, Talk, call_model}

pub record AgentToolResult : Type 0 where
  pub for_llm : String
  pub for_user : String
  pub silent : Bool
  pub failure : Option String

pub record Workshop (W V : Type 0) : Type 0 where
  pub setting : Setting W V
  pub execute : String → Option (Map V) → W → AgentToolResult × W
  pub sends_response : Bool
  pub marshal : Option (Map V) → String
  pub hash_tool_args : String → Option (Map V) → String
  pub hash_result : String → String
  -- the first bytes of a text
  pub cut : ℕ → String → String
  pub detection_message : LoopDetection → String
  -- the error of the token budget, if it is used up
  pub budget_error : W → Option String

abbrev pub max_tool_result_chars : ℕ
max_tool_result_chars = 50_000

abbrev truncation_suffix : String
truncation_suffix =
    "\n\n⚠ [Content truncated — original exceeded size limit. Use offset/limit parameters or request specific sections for large results.]"

-- The state of the loop over the tool calls of one reply.
pub record ToolTurn (W V : Type 0) : Type 0 where
  pub talk : Talk W V
  pub detector : ToolLoopDetector
  pub only_terminal : Bool
  pub terminal_summary : String

abbrev or_failure : String → Option String → String
or_failure text none = text
or_failure text (some e) = if text =s= "" then e else text

module _ {W V : Type 0} (x : Workshop W V) where
  unfoldable pub result_content : AgentToolResult → String
  unfolding ◌=s=◌
  result_content r =
      let text = or_failure r.for_llm r.failure in
      if ltb max_tool_result_chars (x.setting.go.byte_length text)
      then text_append (x.cut max_tool_result_chars text) truncation_suffix
      else text

  unfoldable pub sent_to_user : AgentToolResult → Talk W V → Talk W V
  unfolding ◌=s=◌
  sent_to_user r s =
      if not r.silent && not (r.for_user =s= "") && x.sends_response
      then record s {
        sent =
            Talk.sent s
            ++ record {
              channel = x.setting.channel;
              chat_id = x.setting.chat_id;
              content = r.for_user;
            }
              ∷ [];
      }
      else s

  -- A message that joins the request and the session.
  unfoldable pub save_message : Time → Message V → Talk W V → Talk W V
  save_message now m s = record s {
    messages = Talk.messages s ++ m ∷ [];
    sessions = add_full_message x.setting.session_key m now s.sessions;
  }

  unfoldable pub tool_message : ToolCall V → AgentToolResult → Message V
  unfolding result_content
  tool_message tc r = record {
    role = "tool";
    content = result_content r;
    tool_calls = [];
    tool_call_id = tc.id;
  }

  -- One tool call: it is recorded before it is executed, and its outcome afterwards.
  unfoldable pub run_tool_call : Time → ToolCall V → ToolTurn W V → ToolTurn W V
  unfolding sent_to_user save_message tool_message ◌=s=◌
  run_tool_call now tc t =
      let recorded = record_call x.hash_tool_args x.hash_result tc.name tc.arguments t.detector in
      let r = x.execute tc.name tc.arguments t.talk.world in
      let talk = record (ToolTurn.talk t) { world = r.1 } in
      record {
        talk = save_message now (tool_message tc r.0) (sent_to_user r.0 talk);
        detector =
            record_outcome x.hash_tool_args x.hash_result recorded.1 (result_content r.0)
              recorded.0;
        only_terminal = t.only_terminal && is_terminal_tool_call tc.name;
        terminal_summary =
            if tc.name =s= "complete_bootstrap"
            then "Bootstrap completed. I’ve saved the learned identity into the workspace and future sessions will wake from it."
            else t.terminal_summary;
      }

  unfoldable pub run_tool_calls : Time → List (ToolCall V) → ToolTurn W V → ToolTurn W V
  unfolding run_tool_call
  run_tool_calls now [] t = t
  run_tool_calls now (tc ∷ tcs) t = run_tool_calls now tcs (run_tool_call now tc t)

  unfoldable pub assistant_of : LlmResponse V → Message V
  assistant_of response = record {
    role = "assistant";
    content = response.content;
    tool_calls =
        map
          (λ tc. record {
            id = ToolCall.id tc;
            kind = "function";
            function =
                some (record {
                  name = ToolCall.name tc;
                  arguments = x.marshal (ToolCall.arguments tc);
                });
            name = "";
            arguments = none;
          })
          response.tool_calls;
    tool_call_id = "";
  }

-- The readings of the clock in an iteration: at the three tries and when the tools have run.
pub record Readings : Type 0 where
  pub first_time : Time
  pub second_time : Time
  pub third_time : Time
  pub tool_time : Time

-- How an iteration ends.
pub data Next (W V : Type 0) : Type 0 where
  fails : String → Talk W V → Next W V
  stops : String → Bool → Talk W V → Next W V
  goes : Talk W V → ToolLoopDetector → Next W V

-- The final content and whether the reply is that of a terminal tool, or the error; the number of
-- iterations; and the state.
abbrev pub Ending : Type 0 → Type 0 → Type 0
Ending W V = Result String (String × Bool) × ℕ × Talk W V

module _ {W V : Type 0} (x : Workshop W V) where
  unfoldable pub noted : LoopDetection → Talk W V → Talk W V
  noted det s = record s {
    messages =
        Talk.messages s
        ++ record {
          role = "user";
          content = text_append "[System note: " (text_append (x.detection_message det) "]");
          tool_calls = [];
          tool_call_id = "";
        }
          ∷ [];
  }

  unfoldable pub by_severity : LoopSeverity → LoopDetection → ToolTurn W V → Next W V
  unfolding noted
  by_severity LoopSeverity.loop_none det t = goes t.talk t.detector
  by_severity LoopSeverity.loop_warning det t = goes (noted det t.talk) t.detector
  by_severity LoopSeverity.loop_critical det t = stops (x.detection_message det) false t.talk

  unfoldable pub after_calls : ToolTurn W V → Next W V
  unfolding by_severity
  after_calls t =
      if t.only_terminal
      then stops t.terminal_summary true t.talk
      else by_severity (LoopDetection.severity (check t.detector)) (check t.detector) t

  -- The reply with its tool calls.
  unfoldable pub answered :
      Time → LlmResponse V → List (ToolCall V) → Talk W V → ToolLoopDetector → Next W V
  unfolding after_calls run_tool_calls save_message assistant_of
  answered now response [] s d = stops response.content false s
  answered now response (tc ∷ tcs) s d = after_calls (
      run_tool_calls x now (tc ∷ tcs) (record {
        talk = save_message x now (assistant_of x response) s;
        detector = d;
        only_terminal = true;
        terminal_summary = "";
      }))

  unfoldable pub replied :
      Time → Result String (LlmResponse V) × Talk W V → ToolLoopDetector → Next W V
  unfolding answered
  replied now (ok response, s) d = answered now response response.tool_calls s d
  replied now (err e, s) d = fails (text_append "LLM call failed after retries: " e) s

  unfoldable pub one_iteration : Readings → Talk W V → ToolLoopDetector → Option String → Next W V
  unfolding replied call_model
  one_iteration now s d (some e) = fails (text_append "budget exceeded: " e) s
  one_iteration now s d none =
      replied now.tool_time
        (call_model x.setting
          (record {
            messages = s.messages;
            first_time = now.first_time;
            second_time = now.second_time;
            third_time = now.third_time;
          })
          s)
        d

  unfoldable pub followed : ℕ → (Talk W V → ToolLoopDetector → Ending W V) → Next W V → Ending W V
  followed i next (fails e s) = (err e, i, s)
  followed i next (stops content terminal s) = (ok (content, terminal), i, s)
  followed i next (goes s d) = next s d

  -- `remaining` is maxIterations - iteration.
  unfoldable pub iterate : (ℕ → Readings) → ℕ → ℕ → Talk W V → ToolLoopDetector → Ending W V
  unfolding followed one_iteration
  iterate clock zero iteration s d = (ok ("", false), iteration, s)
  iterate clock (suc remaining) iteration s d =
      followed (iteration + 1) (iterate clock remaining (iteration + 1))
        (one_iteration (clock iteration) s d (x.budget_error s.world))

  unfoldable pub run_llm_iteration : (ℕ → Readings) → ℕ → Talk W V → Ending W V
  unfolding iterate
  run_llm_iteration clock max_iterations s = iterate clock max_iterations 0 s new_tool_loop_detector
