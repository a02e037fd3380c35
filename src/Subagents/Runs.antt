-- ===== src/Subagents/Runs.antt =====
-- pkg/tools/toolloop.go: `Spawn` and `RunToolLoop` of the manager, which build the messages and run
-- the loop each on its own.
use Prim.Native.String.{◌++◌ as text_append}
use vikram.Base.{
  ◌≤◌, String, false, List, [], ◌∷◌, if◌then◌else◌, Option, none, some, ◌≡◌, refl, sym, ap, ◌∙◌,
}
use vikram.Base.Int.{pos}
use vikram.Base.Result.{Result, ok, err, err-ne, ok_inj}
use vikram.Providers.{Message}
use vikram.ToolLoop.{Environment, ToolLoopResult, run_tool_loop}
use vikram.ToolLoop.Iterations.{run_tool_loop_bound}
use vikram.Subagents.{
  SubagentManager, AgentEntry, ToolContext, run_subagent, spawn, spawn_with, run_with, prefixed,
  reported, resolve_agent, first_messages, loop_context, with_prompt, spawned_with_prompt,
  spawned_messages, spawned_loop,
}

-- What Spawn returns when the task is under way.
abbrev pub announced : String → String → String
announced label task =
    text_append "Subagent '" (text_append label (text_append "' spawned for task: " task))

prefixed_ok :
    {A W : Type 0} (text : String) (r : Result String A × W) (a : A)
    → (prefixed text r).0 ≡ ok a
    → (r.0 ≡ ok a) × ((prefixed text r).1 ≡ r.1)
unfolding prefixed
prefixed_ok text (ok b, w) a e = (e, refl)
prefixed_ok text (err x, w) a e = absurd (err-ne e)

reported_ok :
    {W : Type 0} (r : Result String ToolLoopResult × W) (res : ToolLoopResult)
    → r.0 ≡ ok res
    → reported r ≡ (record { for_llm = res.content; error = none; is_error = false }, r.1)
unfolding reported
reported_ok (ok a, w) res e =
    ap (λ x. (record { for_llm = ToolLoopResult.content x; error = none; is_error = false }, w))
      (ok_inj e)
reported_ok (err x, w) res e = absurd (err-ne e)

prompts_agree :
    {V : Type 0} (strip : String → String) (prompt : String) (ms : List (Message V))
    → spawned_with_prompt strip prompt ms ≡ with_prompt strip prompt ms
unfolding spawned_with_prompt with_prompt
prompts_agree strip prompt [] = refl
prompts_agree strip prompt (m ∷ ms) = refl

module _ {P T V W B : Type 0} (environment : P → String → T → ToolContext B → Environment W V)
    (strip : String → String) (bus : Option B) (task label : String) (tc : ToolContext B)
    (w : W) where
  -- The context of a RunToolLoop for the place of `tc`.
  abbrev pub same_place : ToolContext B
  same_place = loop_context environment strip bus tc.channel tc.chat_id tc.session_key

  abbrev Synchronous : Option T → AgentEntry P V → Result String ToolLoopResult × W
  Synchronous tools entry =
      run_with environment strip tools entry bus task tc.channel tc.chat_id tc.session_key w

  messages_agree :
      (entry : AgentEntry P V)
      → spawned_messages environment strip entry task tc
        ≡ first_messages environment strip entry task tc.channel tc.chat_id
  unfolding spawned_messages first_messages
  messages_agree entry = prompts_agree strip entry.system_prompt _

  -- Both ways give the same to the tool loop.
  abbrev inner : AgentEntry P V → T → ToolContext B → Result String ToolLoopResult × W
  inner entry tools context =
      run_tool_loop (environment entry.provider entry.model tools context) (pos 10)
        (first_messages environment strip entry task tc.channel tc.chat_id) w

  spawned_loop-ok :
      (entry : AgentEntry P V) (tools : T) (res : ToolLoopResult)
      → environment entry.provider entry.model tools tc
        ≡ environment entry.provider entry.model tools same_place
      → (inner entry tools same_place).0 ≡ ok res
      → spawned_loop environment strip entry tools task tc w ≡ (
        if tc.has_async
            then some (record { for_llm = res.content; error = none; is_error = false })
            else none,
        (inner entry tools same_place).1,
      )
  unfolding spawned_loop
  spawned_loop-ok entry tools res same e =
      rw (messages_agree entry, same)
        (ap (λ x. (if tc.has_async then some (x.0) else none, x.1)) (reported_ok _ res e))

  run_with-spawn_with :
      (entry : AgentEntry P V) (tools : Option T) (res : ToolLoopResult)
      → ((t : T)
          → environment entry.provider entry.model t tc
            ≡ environment entry.provider entry.model t same_place)
      → (Synchronous tools entry).0 ≡ ok res
      → (res.iterations ≤ 10)
        × (spawn_with environment strip tools entry task label tc w ≡ (
          ok (
            announced label task,
            if tc.has_async
                then some (record { for_llm = res.content; error = none; is_error = false })
                else none,
          ),
          (Synchronous tools entry).1,
        ))
  unfolding run_with spawn_with loop_context
  run_with-spawn_with entry none res same e = absurd (err-ne e)
  run_with-spawn_with entry (some tools) res same e =
      let (done, world) = prefixed_ok "subagent failed: " (inner entry tools same_place) res e in
      (
        run_tool_loop_bound (environment entry.provider entry.model tools same_place) (pos 10)
            (first_messages environment strip entry task tc.channel tc.chat_id) w done,
        ap (λ x. (ok (announced label task, x.0), x.1))
              (spawned_loop-ok entry tools res (same tools) done)
            ∙ ap
                (λ v. (
                  ok (
                    announced label task,
                    if tc.has_async
                        then some (record { for_llm = res.content; error = none; is_error = false })
                        else none,
                  ),
                  v,
                ))
                (sym world),
      )

  -- When the model and the tools act the same in the context of Spawn as in the one that the manager's
  -- RunToolLoop makes for its channel, chat and session, and RunToolLoop gives a result there, then it
  -- has called the model at most ten times, and Spawn of the same task from the same state says at
  -- once that the subagent is spawned, passes the same content to its callback if it has one, not as
  -- an error, and leaves the same world.
  pub run_subagent-spawn :
      (m : SubagentManager P T V) (res : ToolLoopResult)
      → ((p : P) (model : String) (t : T)
          → environment p model t tc ≡ environment p model t same_place)
      → (run_subagent environment strip m bus task label tc.channel tc.chat_id tc.session_key w).0
        ≡ ok res
      → (res.iterations ≤ 10)
        × (spawn environment strip m task label tc w ≡ (
          ok (
            announced label task,
            if tc.has_async
                then some (record { for_llm = res.content; error = none; is_error = false })
                else none,
          ),
          (run_subagent environment strip m bus task label tc.channel tc.chat_id tc.session_key
              w).1,
        ))
  unfolding run_subagent spawn
  run_subagent-spawn m res same e =
      run_with-spawn_with (resolve_agent label m) m.tools res (λ t. same _ _ t) e
