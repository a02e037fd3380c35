-- ===== src/LoopDetect/History.antt =====
-- pkg/agent/tool_loop_detect.go: what the detector holds, in terms of all that the agent did.
use mathlib.Core.List.{append-nil, append_assoc}
use vikram.Base.{
  String, List, [], ◌∷◌, ◌++◌, ◌≡◌, refl, ap, ◌∙◌, arith, count_if, ◌=s=◌, count_if-append,
}
use vikram.Base.Map.{lookup, Distinct}
use vikram.Base.Counts.{count_of, count_of-bump, bump-Distinct}
use vikram.LoopDetect.{
  CallRecord, OutcomeRecord, ToolLoopDetector, new_tool_loop_detector, last, Event, call_made,
  call_ended, step, run, record_call, record_outcome, cap_window,
}
use vikram.LoopDetect.Window.{cap_window-last}
use vikram.LoopDetect.Tally.{}

module _ {Args : Type 0} (hash_tool_args : String → Args → String)
    (hash_result : String → String) where
  -- All calls and all outcomes of a history, oldest first.
  unfoldable pub called : List (Event Args) → List CallRecord
  called [] = []
  called (call_made n a ∷ es) = record { tool_name = n; args_hash = hash_tool_args n a } ∷ called es
  called (call_ended h r ∷ es) = called es

  pub ended : List (Event Args) → List OutcomeRecord
  ended [] = []
  ended (call_made n a ∷ es) = ended es
  ended (call_ended h r ∷ es) = record { args_hash = h; result_hash = hash_result r } ∷ ended es

  -- What the detector holds after the calls `cs` and the outcomes `os`.
  pub record Holds (d : ToolLoopDetector) (cs : List CallRecord) (os : List OutcomeRecord)
      : Type 0 where
    pub calls_last : d.calls ≡ last 30 cs
    pub outcomes_last : d.outcomes ≡ last 30 os
    pub distinct : Distinct d.total_counts
    pub totals : (h : String) → count_of h d.total_counts ≡ count_if (λ c. c.args_hash =s= h) cs

  step-Holds :
      (e : Event Args) (d : ToolLoopDetector) (cs : List CallRecord) (os : List OutcomeRecord)
      → Holds d cs os
      → Holds (step hash_tool_args hash_result e d) (cs ++ called (e ∷ [])) (os ++ ended (e ∷ []))
  unfolding step called ended record_call record_outcome
  step-Holds (call_made n a) d cs os h = record {
    calls_last =
        ap (λ w. cap_window (w ++ record { tool_name = n; args_hash = hash_tool_args n a } ∷ []))
          h.calls_last
        ∙ cap_window-last cs _;
    outcomes_last = rw (append-nil os) h.outcomes_last;
    distinct = bump-Distinct _ d.total_counts h.distinct;
    totals = λ k.
        count_of-bump (hash_tool_args n a) k d.total_counts
        ∙ omega (
          arith,
          h.totals k,
          count_if-append (λ c. c.args_hash =s= k) cs
              (record { tool_name = n; args_hash = hash_tool_args n a } ∷ []),
        );
  }
  step-Holds (call_ended k r) d cs os h = record {
    calls_last = rw (append-nil cs) h.calls_last;
    outcomes_last =
        ap (λ w. cap_window (w ++ record { args_hash = k; result_hash = hash_result r } ∷ []))
          h.outcomes_last
        ∙ cap_window-last os _;
    distinct = h.distinct;
    totals = λ j. rw (append-nil cs) (h.totals j);
  }

  called_cons :
      (e : Event Args) (es : List (Event Args)) → called (e ∷ es) ≡ called (e ∷ []) ++ called es
  unfolding called
  called_cons (call_made n a) es = refl
  called_cons (call_ended k r) es = refl

  ended_cons :
      (e : Event Args) (es : List (Event Args)) → ended (e ∷ es) ≡ ended (e ∷ []) ++ ended es
  unfolding ended
  ended_cons (call_made n a) es = refl
  ended_cons (call_ended k r) es = refl

  run_from-Holds :
      (es : List (Event Args)) (d : ToolLoopDetector) (cs : List CallRecord)
      (os : List OutcomeRecord)
      → Holds d cs os
      → Holds (run hash_tool_args hash_result es d) (cs ++ called es) (os ++ ended es)
  unfolding run called ended
  run_from-Holds [] d cs os h = rw (append-nil cs) (rw (append-nil os) h)
  run_from-Holds (e ∷ es) d cs os h = rw (called_cons e es) (
      rw (ended_cons e es) (
        rw (← (append_assoc cs (called (e ∷ [])) (called es))) (
          rw (← (append_assoc os (ended (e ∷ [])) (ended es))) (
            run_from-Holds es (step hash_tool_args hash_result e d) _ _ (step-Holds e d cs os h)))))

  -- After any history the windows hold the last 30 calls and the last 30 outcomes of it, and the
  -- total count of a hash is the number of calls with this hash in the whole history.
  pub run-Holds :
      (es : List (Event Args))
      → Holds (run hash_tool_args hash_result es new_tool_loop_detector) (called es) (ended es)
  unfolding new_tool_loop_detector count_of lookup
  run-Holds es =
      run_from-Holds es new_tool_loop_detector [] []
        (record { calls_last = refl; outcomes_last = refl; distinct = tt; totals = λ h. refl })
