-- ===== src/LoopDetect/NoProgress.antt =====
-- pkg/agent/tool_loop_detect.go, checkNoProgress: one call with one result, again and again.
use vikram.Base.{
  ℕ, zero, suc, ◌-◌, ◌≤◌, true, ◌≡◌, ◌↔◌, refl, ap, ◌∙◌, List, [], ◌∷◌, arith, str_eq_iff,
  str_eq_refl, length, length-drop, all,
}
use vikram.LoopDetect.{
  OutcomeRecord, ToolLoopDetector, same_outcome, all_same, check_no_progress, loop_warning, last,
}

copies : ℕ → OutcomeRecord → List OutcomeRecord
copies zero o = []
copies (suc n) o = o ∷ copies n o

same_outcome_path : (o p : OutcomeRecord) → same_outcome o p ≡ true → p ≡ o
unfolding same_outcome
same_outcome_path o p h =
    let args : p.args_hash ≡ o.args_hash = (str_eq_iff _ _).0 (ground (arith, h)) in
    let result : p.result_hash ≡ o.result_hash = (str_eq_iff _ _).0 (ground (arith, h)) in
    ap (λ a. record p { args_hash = a }) args ∙ ap (λ r. record o { result_hash = r }) result

all-copies :
    (o : OutcomeRecord) (os : List OutcomeRecord)
    → all (same_outcome o) os ≡ true
    → os ≡ copies (length os) o
unfolding copies
all-copies o [] h = refl
all-copies o (p ∷ os) h =
    let same = same_outcome_path o p (ground (arith, h)) in
    let rest = all-copies o os (ground (arith, h)) in cc (same, rest)

copies-all : (o : OutcomeRecord) (n : ℕ) → all (same_outcome o) (copies n o) ≡ true
unfolding copies same_outcome
copies-all o zero = refl
copies-all o (suc n) =
    ground (arith, copies-all o n, str_eq_refl o.args_hash, str_eq_refl o.result_hash)

all_same-copies :
    (os : List OutcomeRecord)
    → length os ≡ 5
    → all_same os ≡ true
    → (o : OutcomeRecord) × (os ≡ o ∷ o ∷ o ∷ o ∷ o ∷ [])
unfolding all_same copies
all_same-copies [] n h = absurd (omega arith)
all_same-copies (o ∷ os) n h =
    let size : length os ≡ 4 = omega arith in
    (o, ap (λ xs. o ∷ xs) (all-copies o os h ∙ ap (λ k. copies k o) size))

copies-all_same :
    (o : OutcomeRecord) (os : List OutcomeRecord) → os ≡ o ∷ o ∷ o ∷ o ∷ o ∷ [] → all_same os ≡ true
unfolding all_same copies
copies-all_same o os h = ap all_same h ∙ copies-all o 4

-- The detector warns that nothing changes exactly if the last five outcomes are five times the same
-- one, in arguments and result.
pub check_no_progress_lem :
    (d : ToolLoopDetector)
    → ((check_no_progress d).severity ≡ loop_warning)
      ↔ ((o : OutcomeRecord) × (last 5 d.outcomes ≡ o ∷ o ∷ o ∷ o ∷ o ∷ []))
check_no_progress_lem d = (
  λ h.
      all_same-copies (last 5 d.outcomes)
        (omega (arith, length-drop (length d.outcomes - 5) d.outcomes, enough h)) (fires h),
  λ (o, h). warned (long o h) (copies-all_same o (last 5 d.outcomes) h),
)
  where
    enough : (check_no_progress d).severity ≡ loop_warning → 5 ≤ length d.outcomes
    enough h = unfold check_no_progress in (ground (arith, h))

    fires : (check_no_progress d).severity ≡ loop_warning → all_same (last 5 d.outcomes) ≡ true
    fires h = unfold check_no_progress in (ground (arith, h))

    long : (o : OutcomeRecord) → last 5 d.outcomes ≡ o ∷ o ∷ o ∷ o ∷ o ∷ [] → 5 ≤ length d.outcomes
    long o h =
        let size : length (last 5 d.outcomes) ≡ 5 = ap length h in
        omega (arith, size, length-drop (length d.outcomes - 5) d.outcomes)

    warned :
        5 ≤ length d.outcomes
        → all_same (last 5 d.outcomes) ≡ true
        → (check_no_progress d).severity ≡ loop_warning
    warned n p = unfold check_no_progress in (ground (arith, n, p))
