-- ===== src/Base/Time.antt =====
-- Go's time.Time as nanoseconds after its zero value, January 1 of year 1, so that `IsZero` is a
-- test for 0, and time.Duration as a signed integer. `add` stops at the zero value.
use Prim.Native.Nat.{ℕ, suc, ◌+◌, ◌-◌, ◌*◌}
use mathlib.Core.Bool.{Bool}
use vikram.Base.Tests.{ltb, ◌==◌}
use vikram.Base.Int.{ℤ, pos, negsuc}

abbrev pub Time : Type 0
Time = ℕ

abbrev pub Duration : Type 0
Duration = ℤ

abbrev pub after : Time → Time → Bool
after t u = ltb u t

abbrev pub before : Time → Time → Bool
before t u = ltb t u

abbrev pub is_zero : Time → Bool
is_zero t = t == 0

abbrev pub add : Time → Duration → Time
add t (pos n) = t + n
add t (negsuc n) = t - suc n

-- t.Add(-d)
abbrev pub sub : Time → Duration → Time
sub t (pos n) = t - n
sub t (negsuc n) = t + suc n

abbrev pub second : ℕ
second = 1_000_000_000

abbrev pub minute : ℕ
minute = 60 * second
