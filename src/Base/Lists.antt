-- ===== src/Base/Lists.antt =====
-- Lists measured by native numbers, with Boolean tests on their elements.
use Prim.Native.Nat.{ℕ, zero, suc, ◌+◌, ◌-◌, ◌≤◌}
use mathlib.Core.Path.{◌≡◌, refl, ap, ◌∙◌, sym, subst}
use mathlib.Core.Bool.{Bool, Bool-set, true, false, ◌||◌, ◌&&◌}
use mathlib.Core.Option.{Option, none, some}
use mathlib.Core.List.{List, [], ◌∷◌, ◌++◌}
use mathlib.Core.Logic.{inl, inr}
use mathlib.Core.Logic.Or
use mathlib.Core.List.{Mem, mem-cons, mem-cons_self, not-mem-nil, mem-cons_of_mem, Mem-prop}
use native.Mathlib.Omega.{arith}
use vikram.Base.Tests.{Bool-cases, if◌then◌else◌}

module _ {ℓ} {A : Type ℓ} where
  abbrev pub length : List A → ℕ
  length [] = 0
  length (x ∷ xs) = suc (length xs)

  abbrev pub drop : ℕ → List A → List A
  drop zero xs = xs
  drop (suc n) [] = []
  drop (suc n) (x ∷ xs) = drop n xs

  -- The elements that pass a test, in their order.
  abbrev pub keep : (A → Bool) → List A → List A
  keep p [] = []
  keep p (x ∷ xs) = if p x then x ∷ keep p xs else keep p xs

  abbrev pub any : (A → Bool) → List A → Bool
  any p [] = false
  any p (x ∷ xs) = p x || any p xs

  abbrev pub all : (A → Bool) → List A → Bool
  all p [] = true
  all p (x ∷ xs) = p x && all p xs

  abbrev pub count_if : (A → Bool) → List A → ℕ
  count_if p [] = 0
  count_if p (x ∷ xs) = (if p x then 1 else 0) + count_if p xs

  pub length-append : (xs ys : List A) → length (xs ++ ys) ≡ length xs + length ys
  length-append [] ys = omega arith
  length-append (x ∷ xs) ys = omega (arith, length-append xs ys)

  pub length-drop : (n : ℕ) (xs : List A) → length (drop n xs) ≡ length xs - n
  length-drop zero xs = omega arith
  length-drop (suc n) [] = omega arith
  length-drop (suc n) (x ∷ xs) = omega (arith, length-drop n xs)

  pub length-keep-le : (p : A → Bool) (xs : List A) → length (keep p xs) ≤ length xs
  length-keep-le p [] = omega arith
  length-keep-le p (x ∷ xs) = ground (arith, length-keep-le p xs)

  pub any-append : (p : A → Bool) (xs ys : List A) → any p (xs ++ ys) ≡ (any p xs || any p ys)
  any-append p [] ys = refl
  any-append p (x ∷ xs) ys = ground (arith, any-append p xs ys)

  pub count_if-append :
      (p : A → Bool) (xs ys : List A) → count_if p (xs ++ ys) ≡ count_if p xs + count_if p ys
  count_if-append p [] ys = omega arith
  count_if-append p (x ∷ xs) ys = ground (arith, count_if-append p xs ys)

  pub count_if-le : (p : A → Bool) (xs : List A) → count_if p xs ≤ length xs
  count_if-le p [] = omega arith
  count_if-le p (x ∷ xs) = ground (arith, count_if-le p xs)

module _ {ℓ} {A : Type ℓ} where
  pub keep_of_mem : (p : A → Bool) (a : A) (xs : List A) → Mem a (keep p xs) → p a ≡ true
  keep_of_mem p a [] m = absurd (not-mem-nil m)
  keep_of_mem p a (x ∷ xs) m = elim (Bool-cases (p x)) [
    | inl e ↦
        Or.elim (Bool-set (p a) true) (mem-cons.0 (rw e at m)) (λ q. ap p q ∙ e)
          (keep_of_mem p a xs)
    | inr e ↦ keep_of_mem p a xs (rw e at m)
  ]

  pub mem_of_keep : (p : A → Bool) (a : A) (xs : List A) → Mem a (keep p xs) → Mem a xs
  mem_of_keep p a [] m = m
  mem_of_keep p a (x ∷ xs) m = elim (Bool-cases (p x)) [
    | inl e ↦
        Or.elim Mem-prop (mem-cons.0 (rw e at m)) (λ q. subst (λ y. Mem a (y ∷ xs)) q mem-cons_self)
          (λ n. mem-cons_of_mem x (mem_of_keep p a xs n))
    | inr e ↦ mem-cons_of_mem x (mem_of_keep p a xs (rw e at m))
  ]

  pub mem-keep : (p : A → Bool) (a : A) (xs : List A) → Mem a xs → p a ≡ true → Mem a (keep p xs)
  mem-keep p a [] m h = m
  mem-keep p a (x ∷ xs) m h =
      Or.elim Mem-prop (mem-cons.0 m)
        (λ q. rw (sym (ap p q) ∙ h) (subst (λ y. Mem a (y ∷ keep p xs)) q mem-cons_self))
        (λ n. later (mem-keep p a xs n h) (p x))
    where
      later : Mem a (keep p xs) → (b : Bool) → Mem a (if b then x ∷ keep p xs else keep p xs)
      later n true = mem-cons_of_mem x n
      later n false = n

  pub drop_all : (n : ℕ) (xs : List A) → length xs ≤ n → drop n xs ≡ []
  drop_all zero [] h = refl
  drop_all zero (x ∷ xs) h = absurd (omega arith)
  drop_all (suc n) [] h = refl
  drop_all (suc n) (x ∷ xs) h = drop_all n xs (omega arith)

  pub drop_none : (n : ℕ) (xs : List A) → n ≡ 0 → drop n xs ≡ xs
  drop_none n xs h = rw h

module _ {ℓ} {A : Type ℓ} where
  pub mem-all : (p : A → Bool) (x : A) (xs : List A) → all p xs ≡ true → Mem x xs → p x ≡ true
  mem-all p x [] h m = absurd (not-mem-nil m)
  mem-all p x (y ∷ xs) h m =
      Or.elim (Bool-set _ _) (mem-cons.0 m) (λ e. ap p e ∙ ground (arith, h))
        (λ n. mem-all p x xs (ground (arith, h)) n)

-- An element by its place, and the others in their order.
module _ {ℓ} {A : Type ℓ} where
  abbrev pub with_others : A → Option (A × List A) → Option (A × List A)
  with_others x none = none
  with_others x (some (y, ys)) = some (y, x ∷ ys)

  abbrev pub pick : ℕ → List A → Option (A × List A)
  pick n [] = none
  pick zero (x ∷ xs) = some (x, xs)
  pick (suc n) (x ∷ xs) = with_others x (pick n xs)

  -- Of a picked element and the others, as many pass a test as before.
  abbrev pub PickCounts : (A → Bool) → List A → Option (A × List A) → Type 0
  PickCounts p xs none = Unit
  PickCounts p xs (some (y, ys)) = count_if p xs ≡ (if p y then 1 else 0) + count_if p ys

  with_others-PickCounts :
      (p : A → Bool) (x : A) (xs : List A) (o : Option (A × List A))
      → PickCounts p xs o
      → PickCounts p (x ∷ xs) (with_others x o)
  with_others-PickCounts p x xs none h = tt
  with_others-PickCounts p x xs (some (y, ys)) h = omega (arith, h)

  pub pick-PickCounts : (p : A → Bool) (n : ℕ) (xs : List A) → PickCounts p xs (pick n xs)
  pick-PickCounts p n [] = tt
  pick-PickCounts p zero (x ∷ xs) = refl
  pick-PickCounts p (suc n) (x ∷ xs) =
      with_others-PickCounts p x xs (pick n xs) (pick-PickCounts p n xs)

-- A predicate by recursion computes to tuples.
module _ {ℓ κ} {A : Type ℓ} (P : A → Type κ) where
  abbrev pub All : List A → Type κ
  All [] = Unit
  All (x ∷ xs) = P x × All xs

  abbrev pub PickAll : Option (A × List A) → Type κ
  PickAll none = Unit
  PickAll (some (y, ys)) = P y × All ys

  with_others-All : (x : A) (o : Option (A × List A)) → P x → PickAll o → PickAll (with_others x o)
  with_others-All x none px h = tt
  with_others-All x (some (y, ys)) px (py, h) = (py, (px, h))

  pub pick-All : (n : ℕ) (xs : List A) → All xs → PickAll (pick n xs)
  pick-All n [] h = tt
  pick-All zero (x ∷ xs) h = h
  pick-All (suc n) (x ∷ xs) (px, h) = with_others-All x (pick n xs) px (pick-All n xs h)
