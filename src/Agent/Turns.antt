-- ===== src/Agent/Turns.antt =====
-- pkg/agent/loop.go, runLLMIteration: how often it goes round, and the answers to tool calls.
use vikram.Base.{
  ℕ, zero, suc, ◌+◌, ◌≤◌, String, Bool, true, false, List, [], ◌∷◌, ◌++◌, map, ◌≡◌, refl, sym, ap,
  ◌∙◌, arith, if◌then◌else◌,
}
use vikram.Base.Time.{Time}
use vikram.Providers.{Message, ToolCall}
use vikram.Session.{SessionManager, add_full_message}
use vikram.LoopDetect.{ToolLoopDetector, new_tool_loop_detector}
use vikram.Agent.Council.{Talk}
use vikram.Agent.Iteration.{
  Workshop, AgentToolResult, ToolTurn, Next, fails, stops, goes, Ending, Readings, followed,
  iterate, one_iteration, run_llm_iteration, sent_to_user, save_message, tool_message,
  run_tool_call, run_tool_calls,
}
use mathlib.Core.List.{append_assoc, append-nil}

module _ {W V : Type 0} (x : Workshop W V) where
  followed-le :
      (i n : ℕ) (next : Talk W V → ToolLoopDetector → Ending W V) (r : Next W V)
      → i ≤ n
      → ((s : Talk W V) (d : ToolLoopDetector) → (next s d).1 ≤ n)
      → (followed x i next r).1 ≤ n
  unfolding followed
  followed-le i n next (fails e s) h rest = h
  followed-le i n next (stops content terminal s) h rest = h
  followed-le i n next (goes s d) h rest = rest s d

  iterate-le :
      (clock : ℕ → Readings) (remaining iteration : ℕ) (s : Talk W V) (d : ToolLoopDetector)
      → (iterate x clock remaining iteration s d).1 ≤ iteration + remaining
  unfolding iterate
  iterate-le clock zero iteration s d = omega arith
  iterate-le clock (suc remaining) iteration s d =
      followed-le (iteration + 1) (iteration + suc remaining)
        (iterate x clock remaining (iteration + 1))
        (one_iteration x (clock iteration) s d (x.budget_error s.world)) (omega arith)
        (λ t e. omega (arith, iterate-le clock remaining (iteration + 1) t e))

  -- Messages saved to a session one after the other.
  abbrev pub save_all : String → Time → List (Message V) → SessionManager V → SessionManager V
  save_all key now [] sm = sm
  save_all key now (m ∷ ms) sm = save_all key now ms (add_full_message key m now sm)

  -- What a list of answers adds to the request and the session.
  pub Answered : Time → List (ToolCall V) → Talk W V → Talk W V → Type 0
  Answered now tcs s t =
      (answers : List (Message V)) × (map Message.tool_call_id answers ≡ map ToolCall.id tcs)
      × (map Message.role answers ≡ map (λ tc. "tool") tcs)
      × (t.messages ≡ s.messages ++ answers)
      × (t.sessions ≡ save_all x.setting.session_key now answers s.sessions)

  abbrev SameTalk : Talk W V → Talk W V → Type 0
  SameTalk s t = (t.messages ≡ s.messages) × (t.sessions ≡ s.sessions)

  SameTalk-if :
      (b : Bool) (s t u : Talk W V) → SameTalk s t → SameTalk s u → SameTalk s (if b then t else u)
  SameTalk-if true s t u a b = a
  SameTalk-if false s t u a b = b

  sent-SameTalk : (r : AgentToolResult) (s : Talk W V) → SameTalk s (sent_to_user x r s)
  unfolding sent_to_user
  sent-SameTalk r s = SameTalk-if _ s _ s (refl, refl) (refl, refl)

  -- The answer to one call.
  abbrev answer_to : ToolCall V → ToolTurn W V → Message V
  answer_to tc t = tool_message x tc (x.execute tc.name tc.arguments t.talk.world).0

  call_messages :
      (now : Time) (tc : ToolCall V) (t : ToolTurn W V)
      → (run_tool_call x now tc t).talk.messages ≡ t.talk.messages ++ answer_to tc t ∷ []
  unfolding run_tool_call save_message
  call_messages now tc t =
      let r = x.execute tc.name tc.arguments t.talk.world in
      ap (λ ms. ms ++ answer_to tc t ∷ [])
        (sent-SameTalk r.0 (record (ToolTurn.talk t) { world = r.1 })).0

  call_sessions :
      (now : Time) (tc : ToolCall V) (t : ToolTurn W V)
      → (run_tool_call x now tc t).talk.sessions
        ≡ add_full_message x.setting.session_key (answer_to tc t) now t.talk.sessions
  unfolding run_tool_call save_message
  call_sessions now tc t =
      let r = x.execute tc.name tc.arguments t.talk.world in
      ap (add_full_message x.setting.session_key (answer_to tc t) now)
        (sent-SameTalk r.0 (record (ToolTurn.talk t) { world = r.1 })).1

  -- The loop over the tool calls of a reply answers each call, in their order, with one message of
  -- the role tool that carries the id of the call; it appends the answers to the messages of the
  -- request, and saves the same answers, in the same order, to the session.
  pub run_tool_calls-Answered :
      (now : Time) (tcs : List (ToolCall V)) (t : ToolTurn W V)
      → Answered now tcs t.talk (run_tool_calls x now tcs t).talk
  unfolding run_tool_calls Answered tool_message
  run_tool_calls-Answered now [] t = ([], refl, refl, sym (append-nil t.talk.messages), refl)
  run_tool_calls-Answered now (tc ∷ tcs) t =
      let (ms, ids, roles, messages, sessions) =
        run_tool_calls-Answered now tcs (run_tool_call x now tc t) in
      (
        answer_to tc t ∷ ms,
        ap (λ l. tc.id ∷ l) ids,
        ap (λ l. "tool" ∷ l) roles,
        messages
            ∙ ap (λ l. l ++ ms) (call_messages now tc t)
            ∙ append_assoc t.talk.messages (answer_to tc t ∷ []) ms,
        sessions ∙ ap (save_all x.setting.session_key now ms) (call_sessions now tc t),
      )

  -- runLLMIteration ends, by an answer, an error or the limit, after at most maxIterations
  -- iterations.
  pub run_llm_iteration-bound :
      (clock : ℕ → Readings) (max_iterations : ℕ) (s : Talk W V)
      → (run_llm_iteration x clock max_iterations s).1 ≤ max_iterations
  unfolding run_llm_iteration
  run_llm_iteration-bound clock max_iterations s =
      omega (arith, iterate-le clock max_iterations 0 s new_tool_loop_detector)
