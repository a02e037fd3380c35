-- ===== src/Base/Float.antt =====
-- Go's float64, as a type `F` with the operations and conversions that the sources use. Nothing is
-- assumed of them: what is shown holds for IEEE arithmetic, rounding and NaN included.
use Prim.Native.Nat.{ℕ, ◌+◌, ◌-◌, ◌*◌, ◌/◌, ◌^◌}
use vikram.Base.Tests.{ltb, leb, ◌==◌}
use mathlib.Core.Bool.{Bool}
use vikram.Base.Int.{ℤ, pos, pos_part}

-- `ge`, `gt` and `eq` are >=, > and ==, `trunc` is the conversion to int64, and `decimal n k` the literal
-- n / 10^k.
pub record Float64 (F : Type 0) : Type 0 where
  pub add : F → F → F
  pub sub : F → F → F
  pub mul : F → F → F
  pub div : F → F → F
  pub ge : F → F → Bool
  pub gt : F → F → Bool
  pub eq : F → F → Bool
  pub of_int : ℤ → F
  pub trunc : F → ℤ
  pub decimal : ℕ → ℕ → F

-- Thousandths without a sign, to run the models with.
abbrev pub thousandths : Float64 ℕ
thousandths = record {
  add = λ x y. x + y;
  sub = λ x y. x - y;
  mul = λ x y. x * y / 1000;
  div = λ x y. x * 1000 / y;
  ge = λ x y. leb y x;
  gt = λ x y. ltb y x;
  eq = λ x y. x == y;
  of_int = λ n. pos_part n * 1000;
  trunc = λ x. pos (x / 1000);
  decimal = λ n k. n * 1000 / 10 ^ k;
}
