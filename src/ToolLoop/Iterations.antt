-- ===== src/ToolLoop/Iterations.antt =====
-- pkg/tools/toolloop.go: how often RunToolLoop goes round.
use vikram.Base.{ℕ, zero, suc, ◌+◌, ◌≤◌, String, ◌≡◌, refl, ◌≢◌, List, [], ◌∷◌, arith, ap, ◌∙◌}
use vikram.Base.Int.{ℤ, pos_part}
use vikram.Base.Result.{Result, ok, err}
use vikram.Providers.{Message, ToolCall, LlmResponse}
use vikram.ToolLoop.{
  Environment, ToolLoopResult, Turn, failed, finished, continues, respond, answer, turn, loop,
  run_tool_loop,
}

module _ {W V : Type 0} (env : Environment W V) where
  loop_bound :
      (remaining iteration : ℕ) (ms : List (Message V)) (w : W) {res : ToolLoopResult}
      → (loop env remaining iteration ms w).0 ≡ ok res
      → res.iterations ≤ iteration + remaining
  unfolding loop
  loop_bound zero iteration ms w h = ground arith
  loop_bound (suc remaining) iteration ms w {res} h =
      next (turn env ms w) h (λ ms' w'. loop_bound remaining (iteration + 1) ms' w')
    where
      next :
          (t : Turn W V)
          → (elim t as (λ _. Result String ToolLoopResult × W) [
            | failed e w' ↦ (err e, w')
            | finished content w' ↦
                (ok (record { content = content; iterations = iteration + 1 }), w')
            | continues ms' w' ↦ loop env remaining (iteration + 1) ms' w'
          ]).0
            ≡ ok res
          → ((ms' : List (Message V)) (w' : W)
              → (loop env remaining (iteration + 1) ms' w').0 ≡ ok res
              → res.iterations ≤ iteration + 1 + remaining)
          → res.iterations ≤ iteration + suc remaining
      next (failed e w') q rec = absurd (cc q)
      next (finished content w') q rec = ground (arith, q)
      next (continues ms' w') q rec = omega (arith, rec ms' w' q)

  -- A loop that returns a result has called the model at most MaxIterations times.
  pub run_tool_loop_bound :
      (max_iterations : ℤ) (ms : List (Message V)) (w : W) {res : ToolLoopResult}
      → (run_tool_loop env max_iterations ms w).0 ≡ ok res
      → res.iterations ≤ pos_part max_iterations
  unfolding run_tool_loop
  run_tool_loop_bound max ms w h = omega (arith, loop_bound (pos_part max) 0 ms w h)

  -- The model answers every transcript with tool calls.
  abbrev pub AlwaysCalls : Type 0
  AlwaysCalls =
      (ms : List (Message V)) (w : W)
      → (response : LlmResponse V) × (w' : W) × (env.chat ms w ≡ (ok response, w'))
        × (response.tool_calls ≢ [])

  respond-continues :
      (ms : List (Message V)) (response : LlmResponse V) (tcs : List (ToolCall V)) (w : W)
      → tcs ≢ []
      → (ms' : List (Message V)) × (w' : W) × (respond env ms response tcs w ≡ continues ms' w')
  unfolding respond
  respond-continues ms response [] w ne = absurd (ne refl)
  respond-continues ms response (tc ∷ tcs) w ne = (_, _, refl)

  turn-AlwaysCalls :
      AlwaysCalls
      → (ms : List (Message V)) (w : W)
      → (ms' : List (Message V)) × (w' : W) × (turn env ms w ≡ continues ms' w')
  unfolding turn answer
  turn-AlwaysCalls calls ms w =
      let (response, w', e, ne) = calls ms w in
      let (ms'', w'', q) = respond-continues ms response response.tool_calls w' ne in
      (ms'', w'', ap (answer env ms) e ∙ q)

  loop_exhausted :
      AlwaysCalls
      → (remaining iteration : ℕ) (ms : List (Message V)) (w : W)
      → (loop env remaining iteration ms w).0
        ≡ ok (record { content = ""; iterations = iteration + remaining })
  unfolding loop
  loop_exhausted calls zero iteration ms w = ground arith
  loop_exhausted calls (suc remaining) iteration ms w =
      let (ms', w', q) = turn-AlwaysCalls calls ms w in
      rw (q, loop) (loop_exhausted calls remaining (iteration + 1) ms' w' ∙ ground arith)

  -- If the model answers with tool calls every time, the loop ends after MaxIterations calls of the
  -- model and returns the empty content as a success.
  pub run_tool_loop_exhausted :
      (max_iterations : ℤ) (ms : List (Message V)) (w : W)
      → AlwaysCalls
      → (run_tool_loop env max_iterations ms w).0
        ≡ ok (record { content = ""; iterations = pos_part max_iterations })
  unfolding run_tool_loop
  run_tool_loop_exhausted max ms w calls = loop_exhausted calls (pos_part max) 0 ms w ∙ ground arith
