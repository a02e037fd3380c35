-- ===== src/ToolLoop/Transcript.antt =====
-- pkg/tools/toolloop.go: the transcripts that RunToolLoop sends to the model.
use vikram.Base.{
  Option, ℕ, zero, suc, ◌+◌, String, Bool, true, false, ◌≡◌, refl, List, [], ◌∷◌, ◌++◌, map, any,
  any-append, arith, ◌=s=◌, if◌then◌else◌, str_eq_refl, sym, subst,
}
use vikram.Base.Int.{ℤ, pos_part}
use vikram.Base.Map.{Map}
use vikram.Base.Result.{Result, ok, err}
use vikram.Providers.{Message, ToolCall, LlmResponse}
use vikram.Session.Repair.{is_result}
use vikram.Session.Repair.Complete.{CallsAnswered, AllAnswered, Complete}
use vikram.ToolLoop.{
  Environment, Turn, failed, finished, continues, requested_call, assistant_message, run_tool,
  no_tools, execute_calls, respond, answer, turn, loop, run_tool_loop,
}

module _ {V : Type 0} where
  any-grow :
      (p : Message V → Bool) (xs ys : List (Message V)) → any p xs ≡ true → any p (xs ++ ys) ≡ true
  any-grow p xs ys h = ground (arith, any-append p xs ys, h)

  CallsAnswered-grow :
      (tcs : List (ToolCall V)) (xs ys : List (Message V))
      → CallsAnswered tcs xs
      → CallsAnswered tcs (xs ++ ys)
  CallsAnswered-grow [] xs ys h = tt
  CallsAnswered-grow (tc ∷ tcs) xs ys h =
      (any-grow (is_result tc.id) xs ys h.0, CallsAnswered-grow tcs xs ys h.1)

  AllAnswered-grow : (ms xs ys : List (Message V)) → AllAnswered ms xs → AllAnswered ms (xs ++ ys)
  AllAnswered-grow [] xs ys h = tt
  AllAnswered-grow (m ∷ ms) xs ys h =
      (here (m.role =s= "assistant") h.0, AllAnswered-grow ms xs ys h.1)
    where
      here :
          (b : Bool)
          → (if b then CallsAnswered m.tool_calls xs else Unit {0})
          → (if b then CallsAnswered m.tool_calls (xs ++ ys) else Unit {0})
      here true c = CallsAnswered-grow m.tool_calls xs ys c
      here false c = tt

  AllAnswered-append :
      (xs ys total : List (Message V))
      → AllAnswered xs total
      → AllAnswered ys total
      → AllAnswered (xs ++ ys) total
  AllAnswered-append [] ys total hx hy = hy
  AllAnswered-append (x ∷ xs) ys total hx hy = (hx.0, AllAnswered-append xs ys total hx.1 hy)

assistant_role : ("assistant" =s= "assistant") ≡ true
assistant_role = str_eq_refl "assistant"

tool_role : ("tool" =s= "assistant") ≡ false
unfolding ◌=s=◌
tool_role = refl

module _ {W V : Type 0} (env : Environment W V) where
  -- The results of a batch answer each of its calls, in any transcript that holds them.
  CallsAnswered-execute_calls :
      (tcs : List (ToolCall V)) (total : List (Message V)) (w : W)
      → ((id : String)
          → any (is_result id) (execute_calls env tcs w).0 ≡ true
          → any (is_result id) total ≡ true)
      → CallsAnswered (map (requested_call env) tcs) total
  unfolding execute_calls requested_call
  CallsAnswered-execute_calls [] total w held = tt
  CallsAnswered-execute_calls (tc ∷ tcs) total w held = (
    held tc.id (rw (str_eq_refl "tool", str_eq_refl tc.id)),
    CallsAnswered-execute_calls tcs total (run_tool env tc w).1
        (λ id h. held id (rw h (ground arith))),
  )

  AllAnswered-execute_calls :
      (tcs : List (ToolCall V)) (total : List (Message V)) (w : W)
      → AllAnswered (execute_calls env tcs w).0 total
  unfolding execute_calls
  AllAnswered-execute_calls [] total w = tt
  AllAnswered-execute_calls (tc ∷ tcs) total w =
      rw tool_role (tt, AllAnswered-execute_calls tcs total (run_tool env tc w).1)

  extended : List (Message V) → LlmResponse V → List (ToolCall V) → W → List (Message V)
  extended ms response tcs w =
      (ms ++ assistant_message env response ∷ []) ++ (execute_calls env tcs w).0

  extended-Complete :
      (ms : List (Message V)) (response : LlmResponse V) (w : W)
      → Complete ms
      → Complete (extended ms response response.tool_calls w)
  unfolding extended assistant_message
  extended-Complete ms response w c =
      AllAnswered-append (ms ++ a ∷ []) results total
        (AllAnswered-append ms (a ∷ []) total
          (AllAnswered-grow ms (ms ++ a ∷ []) results (AllAnswered-grow ms ms (a ∷ []) c))
          (rw assistant_role (CallsAnswered-execute_calls response.tool_calls total w ends), tt))
        (AllAnswered-execute_calls response.tool_calls total w)
    where
      a : Message V
      a = assistant_message env response

      results : List (Message V)
      results = (execute_calls env response.tool_calls w).0

      total : List (Message V)
      total = (ms ++ a ∷ []) ++ results

      ends : (id : String) → any (is_result id) results ≡ true → any (is_result id) total ≡ true
      ends id h = ground (arith, h, any-append (is_result id) (ms ++ a ∷ []) results)

  respond-Complete :
      (ms : List (Message V)) (response : LlmResponse V) (tcs : List (ToolCall V)) (w : W)
      {ms' : List (Message V)} {w' : W}
      → Complete ms
      → tcs ≡ response.tool_calls
      → respond env ms response tcs w ≡ continues ms' w'
      → Complete ms'
  unfolding respond
  respond-Complete ms response [] w c e h = absurd (cc h)
  respond-Complete ms response (tc ∷ tcs) w {ms'} {w'} c e h = subst Complete (same h) (
      subst (λ calls. Complete (extended ms response calls w)) (sym e)
        (extended-Complete ms response w c))
    where
      same :
          respond env ms response (tc ∷ tcs) w ≡ continues ms' w'
          → extended ms response (tc ∷ tcs) w ≡ ms'
      same q = unfold extended respond in (cc q)

  answer-Complete :
      (ms : List (Message V)) (r : Result String (LlmResponse V) × W) {ms' : List (Message V)}
      {w' : W}
      → Complete ms
      → answer env ms r ≡ continues ms' w'
      → Complete ms'
  unfolding answer
  answer-Complete ms (ok response, w) c h =
      respond-Complete ms response response.tool_calls w c refl h
  answer-Complete ms (err e, w) c h = absurd (cc h)

  -- A turn that goes on leaves a transcript in which every tool call has its result, if it was given
  -- such a transcript.
  turn-Complete :
      (ms : List (Message V)) (w : W) {ms' : List (Message V)} {w' : W}
      → Complete ms
      → turn env ms w ≡ continues ms' w'
      → Complete ms'
  unfolding turn
  turn-Complete ms w c h = answer-Complete ms (env.chat ms w) c h

  execute_calls_inv :
      (I : W → Type 0)
      → ((tc : ToolCall V) (w : W) → I w → I (run_tool env tc w).1)
      → (tcs : List (ToolCall V)) (w : W) → I w
      → I (execute_calls env tcs w).1
  unfolding execute_calls
  execute_calls_inv I keeps [] w h = h
  execute_calls_inv I keeps (tc ∷ tcs) w h =
      execute_calls_inv I keeps tcs (run_tool env tc w).1 (keeps tc w h)

  -- The world after a turn.
  abbrev world : Turn W V → W
  world (failed e w) = w
  world (finished content w) = w
  world (continues ms w) = w

  respond_inv :
      (I : W → Type 0)
      → ((tc : ToolCall V) (w : W) → I w → I (run_tool env tc w).1)
      → (ms : List (Message V)) (response : LlmResponse V) (tcs : List (ToolCall V)) (w : W) → I w
      → I (world (respond env ms response tcs w))
  unfolding respond
  respond_inv I keeps ms response [] w h = h
  respond_inv I keeps ms response (tc ∷ tcs) w h = execute_calls_inv I keeps (tc ∷ tcs) w h

  answer_inv :
      (I : W → Type 0)
      → ((tc : ToolCall V) (w : W) → I w → I (run_tool env tc w).1)
      → (ms : List (Message V)) (r : Result String (LlmResponse V) × W) → I r.1
      → I (world (answer env ms r))
  unfolding answer
  answer_inv I keeps ms (ok response, w) h = respond_inv I keeps ms response response.tool_calls w h
  answer_inv I keeps ms (err e, w) h = h

  run_tool_inv :
      (I : W → Type 0)
      → ((name : String) (args : Option (Map V)) (w : W) → I w → I (env.execute name args w).1)
      → (tc : ToolCall V) (w : W) → I w
      → I (run_tool env tc w).1
  unfolding run_tool
  run_tool_inv I keeps tc w h =
      elim env.has_tools
        as (λ b. I (if b then env.execute tc.name tc.arguments w else (no_tools, w)).1) [
          | true ↦ keeps tc.name tc.arguments w h
          | false ↦ h
        ]

  loop_inv :
      (I : W → Type 0)
      → ((ms : List (Message V)) (w : W) → Complete ms → I w → I (env.chat ms w).1)
      → ((name : String) (args : Option (Map V)) (w : W) → I w → I (env.execute name args w).1)
      → (remaining iteration : ℕ) (ms : List (Message V)) (w : W) → Complete ms
      → I w
      → I (loop env remaining iteration ms w).1
  unfolding loop
  loop_inv I chats tools zero iteration ms w c h = h
  loop_inv I chats tools (suc remaining) iteration ms w c h =
      next (turn env ms w) refl
        (unfold turn in (answer_inv I (run_tool_inv I tools) ms (env.chat ms w) (chats ms w c h)))
        (λ ms' w' c'. loop_inv I chats tools remaining (iteration + 1) ms' w' c')
    where
      next :
          (t : Turn W V)
          → turn env ms w ≡ t
          → I (world (turn env ms w))
          → ((ms' : List (Message V)) (w' : W)
              → Complete ms'
              → I w'
              → I (loop env remaining (iteration + 1) ms' w').1)
          → I (loop env (suc remaining) iteration ms w).1
      next (failed e w') q i rec = rw (q, loop) (rw q at i)
      next (finished content w') q i rec = rw (q, loop) (rw q at i)
      next (continues ms' w') q i rec =
          rw (q, loop) (rec ms' w' (turn-Complete ms w c q) (rw q at i))

  -- From a transcript in which every call has its result the loop only ever sends such transcripts
  -- to the model: whatever holds of the world before, and is kept by the tools and by the model on
  -- those transcripts, holds of the world after the loop.
  pub run_tool_loop_inv :
      (I : W → Type 0)
      → ((ms : List (Message V)) (w : W) → Complete ms → I w → I (env.chat ms w).1)
      → ((name : String) (args : Option (Map V)) (w : W) → I w → I (env.execute name args w).1)
      → (max_iterations : ℤ) (ms : List (Message V)) (w : W) → Complete ms
      → I w
      → I (run_tool_loop env max_iterations ms w).1
  unfolding run_tool_loop
  run_tool_loop_inv I chats tools max ms w c h = loop_inv I chats tools (pos_part max) 0 ms w c h
