-- ===== src/LoopDetect/Tally.antt =====
-- pkg/agent/tool_loop_detect.go: a map of counts that is built by increments holds how often each key
-- was counted.
use vikram.Base.{
  ℕ, ◌+◌, ◌≤◌, ◌<◌, String, true, List, [], ◌∷◌, none, some, ◌≡◌, sym, ap, ◌∙◌, arith, ltb, leb,
  count_if, if◌then◌else◌, ◌=s=◌, str_eq_iff, str_eq_refl, Bool-cases, inl, inr,
}
use vikram.Base.Map.{Map, lookup, values, Distinct}
use vikram.Base.Counts.{count_of, bump, count_of-bump, bump-Distinct}
use vikram.LoopDetect.{tally, max_count, first_over}

pub count_of-tally :
    (ks : List String) (j : String) (m : Map ℕ)
    → count_of j (tally ks m) ≡ count_if (λ k. k =s= j) ks + count_of j m
unfolding tally
count_of-tally [] j m = omega arith
count_of-tally (k ∷ ks) j m = omega (arith, count_of-tally ks j (bump k m), count_of-bump k j m)

pub tally-Distinct : (ks : List String) (m : Map ℕ) → Distinct m → Distinct (tally ks m)
unfolding tally
tally-Distinct [] m d = d
tally-Distinct (k ∷ ks) m d = tally-Distinct ks (bump k m) (bump-Distinct k m d)

-- A limit that some count of the map reaches.
abbrev pub Reaches : ℕ → Map ℕ → Type 0
Reaches n m = (k : String) × (n ≤ count_of k m)

pub Reaches-tail :
    (n : ℕ) (j : String) (v : ℕ) (m : Map ℕ)
    → 1 ≤ n
    → Distinct ((j, v) ∷ m)
    → Reaches n m
    → Reaches n ((j, v) ∷ m)
unfolding count_of lookup
Reaches-tail n j v m pos d (k, h) = elim (Bool-cases (j =s= k)) [
  | inl e ↦
      let gone : lookup k m ≡ none = ap (λ x. lookup x m) (sym ((str_eq_iff j k).0 e)) ∙ d.0 in
      absurd (ground arith)
  | inr e ↦ (k, ground arith)
]

pub Reaches-cases :
    (n : ℕ) (j : String) (v : ℕ) (m : Map ℕ) → ltb v n ≡ true → Reaches n ((j, v) ∷ m) → Reaches n m
unfolding count_of lookup
Reaches-cases n j v m small (k, h) = (k, ground arith)

pub Reaches-head : (n : ℕ) (j : String) (v : ℕ) (m : Map ℕ) → n ≤ v → Reaches n ((j, v) ∷ m)
unfolding count_of lookup
Reaches-head n j v m h = (j, rw (str_eq_refl j) h)

pub first_over-none : (m : Map ℕ) → first_over (values m) ≡ none → Reaches 30 m → ⊥
unfolding first_over count_of lookup
first_over-none [] e (k, h) = absurd (omega arith)
first_over-none ((j, v) ∷ m) e r =
    first_over-none m (ground arith) (Reaches-cases 30 j v m (ground arith) r)

pub first_over-some :
    (n : ℕ) (m : Map ℕ) → Distinct m → first_over (values m) ≡ some n → Reaches 30 m
unfolding first_over
first_over-some n [] d e = absurd (cc e)
first_over-some n ((j, v) ∷ m) d e = elim (Bool-cases (leb 30 v)) [
  | inl h ↦ Reaches-head 30 j v m (ground arith)
  | inr h ↦ Reaches-tail 30 j v m (omega arith) d (first_over-some n m d.1 (ground arith))
]

-- The maximum is the start value or a value of the map, and no less than either.
pub max_count-le : (lim max : ℕ) (m : Map ℕ) → lim ≤ max → lim ≤ max_count max (values m)
unfolding max_count
max_count-le lim max [] h = h
max_count-le lim max ((j, v) ∷ m) h =
    max_count-le lim (if ltb max v then v else max) m (ground arith)

pub max_count-Reaches :
    (lim max : ℕ) (m : Map ℕ) → 1 ≤ lim → Reaches lim m → lim ≤ max_count max (values m)
unfolding max_count
max_count-Reaches lim max [] pos (k, h) = absurd (unfold count_of lookup in (omega arith))
max_count-Reaches lim max ((j, v) ∷ m) pos r = elim (Bool-cases (leb lim v)) [
  | inl h ↦ max_count-le lim (if ltb max v then v else max) m (ground arith)
  | inr h ↦
      max_count-Reaches lim (if ltb max v then v else max) m pos
        (Reaches-cases lim j v m (ground arith) r)
]

pub Reaches-max_count :
    (lim max : ℕ) (m : Map ℕ)
    → Distinct m
    → max < lim
    → lim ≤ max_count max (values m)
    → Reaches lim m
unfolding max_count
Reaches-max_count lim max [] d small h = absurd (omega arith)
Reaches-max_count lim max ((j, v) ∷ m) d small h = elim (Bool-cases (leb lim v)) [
  | inl e ↦ Reaches-head lim j v m (ground arith)
  | inr e ↦
      Reaches-tail lim j v m (omega arith) d
        (Reaches-max_count lim (if ltb max v then v else max) m d.1 (ground arith) h)
]
