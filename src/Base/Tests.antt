-- ===== src/Base/Tests.antt =====
-- Boolean tests on the native numbers and on texts, the conditional, and splits on computed values.
use Prim.Native.Nat.{ℕ, ◌≤◌, ◌<◌, compare, Ordering}
use Prim.Native.String.{String}
use mathlib.Core.Path.{◌≡◌, refl}
use mathlib.Core.Logic.{◌↔◌, ◌⊎◌, inl, inr, ◌≢◌}
use mathlib.Core.Bool.{Bool, true, false}
use mathlib.Core.Option.{Option, none, some}
use native.Mathlib.Omega.{arith}
use text.Mathlib.Text.{◌==◌ as text_eq}
use text.Mathlib.TextEquality.{eq_iff}

abbrev pub ltb : ℕ → ℕ → Bool
ltb a b = elim (compare a b) [ Ordering.lt ↦ true | _ ↦ false ]

abbrev pub leb : ℕ → ℕ → Bool
leb a b = elim (compare a b) [ Ordering.gt ↦ false | _ ↦ true ]

infix 50 ◌==◌
abbrev pub ◌==◌ : ℕ → ℕ → Bool
a == b = elim (compare a b) [ Ordering.eq ↦ true | _ ↦ false ]

-- Go's == on strings. Shut: its lemmas are `str_eq_iff` and the four below it.
infix 50 ◌=s=◌
unfoldable pub ◌=s=◌ : String → String → Bool
a =s= b = text_eq a b

infix 1 if◌then◌else◌
abbrev pub if◌then◌else◌ {ℓ} : {A : Type ℓ} → Bool → A → A → A
if true then x else y = x
if false then x else y = y

pub ltb→lt : (a b : ℕ) → ltb a b ≡ true → a < b
ltb→lt a b h = ground arith

pub lt→ltb : (a b : ℕ) → a < b → ltb a b ≡ true
lt→ltb a b h = ground arith

pub leb→le : (a b : ℕ) → leb a b ≡ true → a ≤ b
leb→le a b h = ground arith

pub str_eq_iff : (a b : String) → ((a =s= b) ≡ true) ↔ (a ≡ b)
unfolding ◌=s=◌
str_eq_iff a b = eq_iff a b

pub str_eq_refl : (a : String) → (a =s= a) ≡ true
str_eq_refl a = (str_eq_iff a a).1 refl

pub str_eq_sym : (a b : String) → (a =s= b) ≡ (b =s= a)
str_eq_sym a b = ground (arith, str_eq_iff a b, str_eq_iff b a)

pub str_ne : (a b : String) → a ≢ b → (a =s= b) ≡ false
str_ne a b h = ground (arith, str_eq_iff a b)

-- Two literals differ if their test computes to false.
pub ne_by_test : (a b : String) → (a =s= b) ≡ false → a ≢ b
ne_by_test a b h = ground (arith, str_eq_iff a b)

pub Bool-cases : (b : Bool) → (b ≡ true) ⊎ (b ≡ false)
Bool-cases true = inl refl
Bool-cases false = inr refl

pub Option-cases {ℓ} : {A : Type ℓ} (o : Option A) → (o ≡ none) ⊎ ((a : A) × (o ≡ some a))
Option-cases none = inl refl
Option-cases (some a) = inr (a, refl)
