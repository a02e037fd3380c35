-- ===== src/LoopDetect/Detection.antt =====
-- pkg/agent/tool_loop_detect.go: which histories of an agent stop it.
use vikram.Base.{
  ℕ, ◌≤◌, String, List, [], ◌∷◌, Option, none, some, ◌≡◌, ◌≢◌, ◌↔◌, ◌⊎◌, refl, sym, ap, ◌∙◌, subst,
  arith, count_if, if◌then◌else◌, ◌=s=◌, ◌==◌, inl, inr, Option-cases, map, length,
}
use vikram.Base.Map.{lookup, values, Distinct}
use vikram.Base.Counts.{count_of}
use vikram.LoopDetect.{
  LoopSeverity, loop_critical, loop_warning, loop_none, CallRecord, ToolLoopDetector,
  new_tool_loop_detector, key, tally, max_count, no_detection, or_else, LoopDetection, first_over,
  generic_repeat, check, check_circuit_breaker, check_generic_repeat, check_no_progress,
  check_ping_pong, last, Event, run,
}
use vikram.LoopDetect.History.{called, run-Holds}
use vikram.LoopDetect.Tally.{
  count_of-tally, tally-Distinct, Reaches, first_over-none, first_over-some, max_count-Reaches,
  Reaches-max_count,
}

generic_repeat_lem :
    (d : ToolLoopDetector)
    → check_generic_repeat d ≡ generic_repeat (max_count 0 (values (tally (map key d.calls) [])))
unfolding check_generic_repeat
generic_repeat_lem d = cases d.calls
  where
    cases :
        (cs : List CallRecord)
        → (if length cs == 0
            then no_detection
            else generic_repeat (max_count 0 (values (tally (map key cs) []))))
          ≡ generic_repeat (max_count 0 (values (tally (map key cs) [])))
    cases [] = unfold generic_repeat tally max_count in refl
    cases (c ∷ cs) = ground arith

generic_repeat-critical : (n : ℕ) → ((generic_repeat n).severity ≡ loop_critical) ↔ (20 ≤ n)
unfolding generic_repeat
generic_repeat-critical n = (λ h. ground arith, λ h. ground arith)

-- The other detectors only warn.
no_progress-critical : (d : ToolLoopDetector) → (check_no_progress d).severity ≢ loop_critical
unfolding check_no_progress
no_progress-critical d h = ground arith

ping_pong-critical : (d : ToolLoopDetector) → (check_ping_pong d).severity ≢ loop_critical
unfolding check_ping_pong
ping_pong-critical d h = ground arith

circuit_breaker-critical :
    (d : ToolLoopDetector) (n : ℕ)
    → first_over (values d.total_counts) ≡ some n
    → (check_circuit_breaker d).severity ≡ loop_critical
unfolding check_circuit_breaker
circuit_breaker-critical d n e = ground (arith, e)

circuit_breaker-none :
    (d : ToolLoopDetector)
    → first_over (values d.total_counts) ≡ none
    → (check_circuit_breaker d).severity ≡ loop_none
unfolding check_circuit_breaker
circuit_breaker-none d e = ground (arith, e)

or_else-critical :
    (a b : LoopDetection)
    → ((or_else a b).severity ≡ loop_critical)
      ↔ ((a.severity ≡ loop_critical) ⊎ (a.severity ≡ loop_none) × (b.severity ≡ loop_critical))
or_else-critical a b = cases a.severity refl
  where
    cases :
        (s : LoopSeverity)
        → a.severity ≡ s
        → ((or_else a b).severity ≡ loop_critical)
          ↔ ((a.severity ≡ loop_critical) ⊎ (a.severity ≡ loop_none) × (b.severity ≡ loop_critical))
    cases loop_none e =
        rw e (λ h. inr (refl, h), λ h. elim h [ inl x ↦ absurd (cc x) | inr x ↦ x.1 ])
    cases loop_warning e =
        rw e (λ h. absurd (cc h), λ h. elim h [ inl x ↦ absurd (cc x) | inr x ↦ absurd (cc (x.0)) ])
    cases loop_critical e = rw e (λ h. inl refl, λ h. refl)

check-critical :
    (d : ToolLoopDetector)
    → ((check d).severity ≡ loop_critical) ↔ (
        ((check_circuit_breaker d).severity ≡ loop_critical)
        ⊎ ((check_circuit_breaker d).severity ≡ loop_none)
          × ((check_generic_repeat d).severity ≡ loop_critical))
check-critical d = (found, kept)
  where
    rest : LoopDetection
    rest = or_else (check_no_progress d) (check_ping_pong d)

    rest_warns : rest.severity ≢ loop_critical
    rest_warns h = elim ((or_else-critical (check_no_progress d) (check_ping_pong d)).0 h) [
      | inl x ↦ no_progress-critical d x
      | inr x ↦ ping_pong-critical d x.1
    ]

    found :
        (check d).severity ≡ loop_critical
        → ((check_circuit_breaker d).severity ≡ loop_critical)
          ⊎ ((check_circuit_breaker d).severity ≡ loop_none)
            × ((check_generic_repeat d).severity ≡ loop_critical)
    found h =
        elim ((or_else-critical (check_circuit_breaker d) (or_else (check_generic_repeat d) rest)).0
          (unfold check in h)) [
            | inl x ↦ inl x
            | inr x ↦ elim ((or_else-critical (check_generic_repeat d) rest).0 x.1) [
              | inl y ↦ inr (x.0, y)
              | inr y ↦ absurd (rest_warns y.1)
            ]
          ]

    kept :
        ((check_circuit_breaker d).severity ≡ loop_critical)
          ⊎ ((check_circuit_breaker d).severity ≡ loop_none)
            × ((check_generic_repeat d).severity ≡ loop_critical)
        → (check d).severity ≡ loop_critical
    kept (inl x) =
        unfold check in
        ((or_else-critical (check_circuit_breaker d) (or_else (check_generic_repeat d) rest)).1
          (inl x))
    kept (inr x) =
        unfold check in
        ((or_else-critical (check_circuit_breaker d) (or_else (check_generic_repeat d) rest)).1
          (inr (x.0, (or_else-critical (check_generic_repeat d) rest).1 (inl x.1))))

-- Some hash was called 30 times in the whole history.
abbrev pub Trips : List CallRecord → Type 0
Trips cs = (h : String) × (30 ≤ count_if (λ c. c.args_hash =s= h) cs)

-- Some tool was called 20 times with the same hash among the last 30 calls.
abbrev pub Repeats : List CallRecord → Type 0
Repeats cs = (k : String) × (20 ≤ count_if (λ c. key c =s= k) (last 30 cs))

count_if-map :
    (k : String) (cs : List CallRecord)
    → count_if (λ x. x =s= k) (map key cs) ≡ count_if (λ c. key c =s= k) cs
count_if-map k [] = refl
count_if-map k (c ∷ cs) = ground (arith, count_if-map k cs)

circuit_breaker-Trips :
    (d : ToolLoopDetector)
    → Distinct d.total_counts
    → ((check_circuit_breaker d).severity ≡ loop_critical) ↔ Reaches 30 d.total_counts
circuit_breaker-Trips d distinct = cases (first_over (values d.total_counts)) refl
  where
    cases :
        (o : Option ℕ)
        → first_over (values d.total_counts) ≡ o
        → ((check_circuit_breaker d).severity ≡ loop_critical) ↔ Reaches 30 d.total_counts
    cases none e = (
      λ h. absurd (cc (h, circuit_breaker-none d e)),
      λ r. absurd (first_over-none d.total_counts e r),
    )
    cases (some n) e =
        (λ h. first_over-some n d.total_counts distinct e, λ r. circuit_breaker-critical d n e)

circuit_breaker-cases :
    (d : ToolLoopDetector)
    → ((check_circuit_breaker d).severity ≡ loop_critical)
      ⊎ ((check_circuit_breaker d).severity ≡ loop_none)
circuit_breaker-cases d = elim (Option-cases (first_over (values d.total_counts))) [
  | inl e ↦ inr (circuit_breaker-none d e)
  | inr (n, e) ↦ inl (circuit_breaker-critical d n e)
]

generic_repeat-Reaches :
    (d : ToolLoopDetector)
    → ((check_generic_repeat d).severity ≡ loop_critical) ↔ Reaches 20 (tally (map key d.calls) [])
generic_repeat-Reaches d =
    let counts = tally (map key d.calls) [] in
    (
      λ h.
          Reaches-max_count 20 0 counts (tally-Distinct (map key d.calls) [] tt) (omega arith)
            ((generic_repeat-critical _).0 (ap (λ x. x.severity) (sym (generic_repeat_lem d)) ∙ h)),
      λ r.
          ap (λ x. x.severity) (generic_repeat_lem d)
          ∙ (generic_repeat-critical _).1 (max_count-Reaches 20 0 counts (omega arith) r),
    )

count_of-window :
    (k : String) (cs : List CallRecord)
    → count_of k (tally (map key cs) []) ≡ count_if (λ c. key c =s= k) cs
unfolding count_of lookup
count_of-window k cs = count_of-tally (map key cs) k [] ∙ omega (arith, count_if-map k cs)

module _ {Args : Type 0} (hash_tool_args : String → Args → String)
    (hash_result : String → String) where
  -- After any history of calls and outcomes the detector stops the agent exactly if some hash was
  -- called at least 30 times in the whole history, or some tool with the same hash at least 20 times
  -- among the last 30 calls.
  pub run-check_critical :
      (es : List (Event Args))
      → ((check (run hash_tool_args hash_result es new_tool_loop_detector)).severity
          ≡ loop_critical)
        ↔ (Trips (called hash_tool_args hash_result es)
            ⊎ Repeats (called hash_tool_args hash_result es))
  run-check_critical es =
      let d = run hash_tool_args hash_result es new_tool_loop_detector in
      let cs = called hash_tool_args hash_result es in
      let holds = run-Holds hash_tool_args hash_result es in
      (
        stopped d cs holds.calls_last holds.distinct holds.totals,
        stops d cs holds.calls_last holds.distinct holds.totals,
      )
    where
      stopped :
          (d : ToolLoopDetector) (cs : List CallRecord)
          → d.calls ≡ last 30 cs
          → Distinct d.total_counts
          → ((h : String) → count_of h d.total_counts ≡ count_if (λ c. c.args_hash =s= h) cs)
          → (check d).severity ≡ loop_critical
          → Trips cs ⊎ Repeats cs
      stopped d cs window distinct totals h = elim ((check-critical d).0 h) [
        | inl x ↦
            let (k, n) = (circuit_breaker-Trips d distinct).0 x in inl (k, omega (arith, totals k))
        | inr x ↦
            let (k, n) = (generic_repeat-Reaches d).0 x.1 in
            inr (
              k,
              subst (λ w. 20 ≤ count_if (λ c. key c =s= k) w) window
                  (omega (arith, count_of-window k d.calls)),
            )
      ]

      stops :
          (d : ToolLoopDetector) (cs : List CallRecord)
          → d.calls ≡ last 30 cs
          → Distinct d.total_counts
          → ((h : String) → count_of h d.total_counts ≡ count_if (λ c. c.args_hash =s= h) cs)
          → Trips cs ⊎ Repeats cs
          → (check d).severity ≡ loop_critical
      stops d cs window distinct totals (inl (k, n)) =
          (check-critical d).1
            (inl ((circuit_breaker-Trips d distinct).1 (k, omega (arith, totals k))))
      stops d cs window distinct totals (inr (k, n)) = elim (circuit_breaker-cases d) [
        | inl x ↦ (check-critical d).1 (inl x)
        | inr x ↦
            let seen : 20 ≤ count_if (λ c. key c =s= k) d.calls =
              subst (λ w. 20 ≤ count_if (λ c. key c =s= k) w) (sym window) n in
            (check-critical d).1
              (inr (x, (generic_repeat-Reaches d).1 (k, omega (arith, count_of-window k d.calls))))
      ]
