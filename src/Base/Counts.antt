-- ===== src/Base/Counts.antt =====
-- A Go map of counts, map[string]int: reading a missing key gives 0.
use vikram.Base.Tests.{◌=s=◌, str_eq_iff, if◌then◌else◌, Bool-cases}
use vikram.Base.Map.{Map, lookup, insert, Distinct, lookup-insert, insert-Distinct}
use Prim.Native.Nat.{ℕ, ◌+◌}
use Prim.Native.String.{String}
use mathlib.Core.Path.{◌≡◌, ap, ◌∙◌}
use mathlib.Core.Bool.{true, false}
use mathlib.Core.Logic.{inl, inr, ◌⊎◌}
use mathlib.Core.Option.{Option, none, some}
use native.Mathlib.Omega.{arith}

abbrev pub or_zero : Option ℕ → ℕ
or_zero none = 0
or_zero (some n) = n

unfoldable pub count_of : String → Map ℕ → ℕ
count_of k m = or_zero (lookup k m)

-- m[k]++
unfoldable pub bump : String → Map ℕ → Map ℕ
unfolding count_of
bump k m = insert k (count_of k m + 1) m

pub count_of-bump :
    (k j : String) (m : Map ℕ) → count_of j (bump k m) ≡ (if k =s= j then 1 else 0) + count_of j m
unfolding count_of bump
count_of-bump k j m =
    ap or_zero (lookup-insert k j (count_of k m + 1) m) ∙ cases (Bool-cases (k =s= j))
  where
    cases :
        ((k =s= j) ≡ true) ⊎ ((k =s= j) ≡ false)
        → or_zero (if k =s= j then some (count_of k m + 1) else lookup j m)
          ≡ (if k =s= j then 1 else 0) + count_of j m
    cases (inl e) =
        let same : count_of k m ≡ count_of j m = ap (λ x. count_of x m) ((str_eq_iff k j).0 e) in
        ground arith
    cases (inr e) = ground arith

pub count_of-insert :
    (k j : String) (n : ℕ) (m : Map ℕ)
    → count_of j (insert k n m) ≡ (if k =s= j then n else count_of j m)
unfolding count_of
count_of-insert k j n m = ap or_zero (lookup-insert k j n m) ∙ ground arith

pub bump-Distinct : (k : String) (m : Map ℕ) → Distinct m → Distinct (bump k m)
unfolding bump
bump-Distinct k m d = insert-Distinct k _ m d
