-- ===== src/LoopDetect/PingPong.antt =====
-- pkg/agent/tool_loop_detect.go, checkPingPong: two calls in turns.
use vikram.Base.{
  ℕ, zero, suc, ◌-◌, ◌%◌, ◌≤◌, String, true, false, ◌≡◌, ◌≢◌, ◌↔◌, refl, sym, ap, ◌∙◌, List, [],
  ◌∷◌, arith, if◌then◌else◌, ◌=s=◌, ◌==◌, str_eq_iff, str_ne, ne_by_test, length, length-drop, map,
}
use vikram.LoopDetect.{
  CallRecord, ToolLoopDetector, alternates, ping_pong, check_ping_pong, loop_warning, last,
}

abbrev pub hashes : List CallRecord → List String
hashes cs = map (λ (c : CallRecord). c.args_hash) cs

-- The hashes in turns, from the index `i` on.
turns : String → String → ℕ → ℕ → List String
turns a b i zero = []
turns a b i (suc n) = (if i % 2 == 1 then b else a) ∷ turns a b (suc i) n

length-hashes : (cs : List CallRecord) → length (hashes cs) ≡ length cs
length-hashes [] = refl
length-hashes (c ∷ cs) = ap suc (length-hashes cs)

alternates-turns :
    (a b : String) (i : ℕ) (cs : List CallRecord)
    → alternates a b i cs ≡ true
    → hashes cs ≡ turns a b i (length cs)
unfolding alternates turns
alternates-turns a b i [] h = refl
alternates-turns a b i (c ∷ cs) h =
    let same : c.args_hash ≡ (if i % 2 == 1 then b else a) =
      (str_eq_iff _ _).0 (ground (arith, h)) in
    let rest = alternates-turns a b (suc i) cs (ground (arith, h)) in cc (same, rest)

turns-alternates :
    (a b : String) (i : ℕ) (cs : List CallRecord)
    → hashes cs ≡ turns a b i (length cs)
    → alternates a b i cs ≡ true
unfolding alternates turns
turns-alternates a b i [] h = refl
turns-alternates a b i (c ∷ cs) h =
    let same : (c.args_hash =s= (if i % 2 == 1 then b else a)) ≡ true = (str_eq_iff _ _).1 (cc h) in
    rw same (turns-alternates a b (suc i) cs (cc h))

turns_8 : (a b : String) → turns a b 0 8 ≡ a ∷ b ∷ a ∷ b ∷ a ∷ b ∷ a ∷ b ∷ []
unfolding turns
turns_8 a b = refl

ping_pong-turns :
    (cs : List CallRecord)
    → length cs ≡ 8
    → ping_pong cs ≡ true
    → (a : String) × (b : String) × (a ≢ b) × (hashes cs ≡ a ∷ b ∷ a ∷ b ∷ a ∷ b ∷ a ∷ b ∷ [])
unfolding ping_pong
ping_pong-turns [] n h = absurd (cc h)
ping_pong-turns (c ∷ []) n h = absurd (cc h)
ping_pong-turns (c ∷ d ∷ cs) n h = (
  c.args_hash,
  d.args_hash,
  ne_by_test c.args_hash d.args_hash (ground (arith, h)),
  alternates-turns c.args_hash d.args_hash 0 (c ∷ d ∷ cs) (ground (arith, h))
      ∙ ap (turns c.args_hash d.args_hash 0) n
      ∙ turns_8 c.args_hash d.args_hash,
)

turns-ping_pong :
    (a b : String) (cs : List CallRecord)
    → a ≢ b
    → hashes cs ≡ a ∷ b ∷ a ∷ b ∷ a ∷ b ∷ a ∷ b ∷ []
    → ping_pong cs ≡ true
unfolding ping_pong
turns-ping_pong a b [] ne h = absurd (cc h)
turns-ping_pong a b (c ∷ []) ne h = absurd (cc h)
turns-ping_pong a b (c ∷ d ∷ cs) ne h =
    let first : c.args_hash ≡ a = cc h in
    let second : d.args_hash ≡ b = cc h in
    let size : length (c ∷ d ∷ cs) ≡ 8 = sym (length-hashes (c ∷ d ∷ cs)) ∙ ap length h in
    let pattern_from : hashes (c ∷ d ∷ cs) ≡ turns a b 0 (length (c ∷ d ∷ cs)) =
      h ∙ sym (turns_8 a b) ∙ ap (turns a b 0) (sym size) in
    let own : hashes (c ∷ d ∷ cs) ≡ turns c.args_hash d.args_hash 0 (length (c ∷ d ∷ cs)) =
      pattern_from
      ∙ ap (λ x. turns x b 0 (length (c ∷ d ∷ cs))) (sym first)
      ∙ ap (λ y. turns c.args_hash y 0 (length (c ∷ d ∷ cs))) (sym second) in
    let differ : (c.args_hash =s= d.args_hash) ≡ false =
      str_ne _ _ (λ e. ne (sym first ∙ e ∙ second)) in
    rw differ (turns-alternates c.args_hash d.args_hash 0 (c ∷ d ∷ cs) own)

-- The detector warns of a ping-pong exactly if the last eight calls are two different ones in turns.
pub check_ping_pong_lem :
    (d : ToolLoopDetector)
    → ((check_ping_pong d).severity ≡ loop_warning) ↔ (
        (a : String) × (b : String) × (a ≢ b)
        × (hashes (last 8 d.calls) ≡ a ∷ b ∷ a ∷ b ∷ a ∷ b ∷ a ∷ b ∷ []))
unfolding check_ping_pong
check_ping_pong_lem d = (
  λ h.
      ping_pong-turns (last 8 d.calls)
        (omega (arith, length-drop (length d.calls - 8) d.calls, enough h)) (fires h),
  λ (a, b, ne, h). warned (long a b h) (turns-ping_pong a b (last 8 d.calls) ne h),
)
  where
    enough : (check_ping_pong d).severity ≡ loop_warning → 8 ≤ length d.calls
    enough h = unfold check_ping_pong in (ground (arith, h))

    fires : (check_ping_pong d).severity ≡ loop_warning → ping_pong (last 8 d.calls) ≡ true
    fires h = unfold check_ping_pong in (ground (arith, h))

    long :
        (a b : String)
        → hashes (last 8 d.calls) ≡ a ∷ b ∷ a ∷ b ∷ a ∷ b ∷ a ∷ b ∷ []
        → 8 ≤ length d.calls
    long a b h =
        let size : length (hashes (last 8 d.calls)) ≡ 8 = ap length h in
        omega
          (arith, size, length-hashes (last 8 d.calls), length-drop (length d.calls - 8) d.calls)

    warned :
        8 ≤ length d.calls
        → ping_pong (last 8 d.calls) ≡ true
        → (check_ping_pong d).severity ≡ loop_warning
    warned n p = unfold check_ping_pong in (ground (arith, n, p))
