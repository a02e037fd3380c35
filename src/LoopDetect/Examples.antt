-- ===== src/LoopDetect/Examples.antt =====
-- Runs of pkg/agent/tool_loop_detect.go, with the arguments as their own hash.
use vikram.Base.{ℕ, zero, suc, String, List, [], ◌∷◌, ◌≡◌, ◌↔◌, ◌⊎◌, inr, arith, ◌=s=◌}
use vikram.LoopDetect.{Event, call_made, check, run, new_tool_loop_detector, loop_critical}
use vikram.LoopDetect.{ToolLoopDetector, check_ping_pong, loop_warning}
use vikram.Base.{map, ne_by_test, refl}
use vikram.LoopDetect.{OutcomeRecord, check_no_progress}
use vikram.LoopDetect.NoProgress.{check_no_progress_lem}
use vikram.LoopDetect.PingPong.{check_ping_pong_lem}
use vikram.LoopDetect.History.{called, ended, Holds, run-Holds}
use vikram.LoopDetect.Detection.{Trips, Repeats, run-check_critical}

abbrev hash : String → String → String
hash name args = args

-- The same call, many times.
abbrev again : ℕ → List (Event String)
again zero = []
again (suc n) = call_made "ls" "a" ∷ again n

again-called : Repeats (called hash (λ r. r) (again 20))
unfolding called ◌=s=◌
again-called = ("ls:a", omega arith)

run-check_critical_example :
    ((check (run hash (λ r. r) (again 20) new_tool_loop_detector)).severity ≡ loop_critical)
    ↔ (Trips (called hash (λ r. r) (again 20)) ⊎ Repeats (called hash (λ r. r) (again 20)))
run-check_critical_example = run-check_critical hash (λ r. r) (again 20)

run-Holds_example :
    Holds
      (λ name args. args)
      (λ r. r)
      (run hash (λ r. r) (again 40) new_tool_loop_detector)
      (called hash (λ r. r) (again 40))
      (ended hash (λ r. r) (again 40))
run-Holds_example = run-Holds hash (λ r. r) (again 40)

stopped : (check (run hash (λ r. r) (again 20) new_tool_loop_detector)).severity ≡ loop_critical
stopped = (run-check_critical hash (λ r. r) (again 20)).1 (inr again-called)

abbrev eight_turns : ToolLoopDetector
eight_turns = record {
  calls =
      map (λ h. record { tool_name = "ls"; args_hash = h })
        ("x" ∷ "a" ∷ "b" ∷ "a" ∷ "b" ∷ "a" ∷ "b" ∷ "a" ∷ "b" ∷ []);
  outcomes = [];
  total_counts = [];
}

warned : (check_ping_pong eight_turns).severity ≡ loop_warning
unfolding ◌=s=◌
warned = (check_ping_pong_lem eight_turns).1 ("a", "b", ne_by_test "a" "b" refl, refl)

abbrev stuck : OutcomeRecord
stuck = record { args_hash = "a"; result_hash = "r" }

abbrev five_outcomes : ToolLoopDetector
five_outcomes = record eight_turns { outcomes = stuck ∷ stuck ∷ stuck ∷ stuck ∷ stuck ∷ [] }

unchanged : (check_no_progress five_outcomes).severity ≡ loop_warning
unchanged = (check_no_progress_lem five_outcomes).1 (stuck, refl)
