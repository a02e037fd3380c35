-- ===== src/Base/Result.antt =====
-- Go's (value, error) returns: a value or an error of the package's own type.
use mathlib.Core.Path.{◌≡◌, refl}
use mathlib.Core.Bool.{Bool, true, false}

pub data Result (E A : Type 0) : Type 0 where
  ok : A → Result E A
  err : E → Result E A

infixl 5 ◌>>=◌ ◌>>◌
abbrev pub ◌>>=◌ : {E A B : Type 0} → Result E A → (A → Result E B) → Result E B
ok a >>= f = f a
err e >>= f = err e

abbrev pub ◌>>◌ : {E B : Type 0} → Result E (Unit {0}) → Result E B → Result E B
m >> k = m >>= λ _. k

-- `if !test { return e }`
abbrev pub guard : {E : Type 0} → Bool → E → Result E (Unit {0})
guard true e = ok tt
guard false e = err e

-- The state after an operation: one that returns an error has changed nothing.
abbrev pub settle : {E A : Type 0} → A → Result E A → A
settle a (ok b) = b
settle a (err e) = a

-- A property of the settled state of a chain: the chain stops here, or goes on.
pub settle->>= :
    {E A S : Type 0} (P : S → Type 0) (s : S) (m : Result E A) (f : A → Result E S)
    → P s
    → ((a : A) → m ≡ ok a → P (settle s (f a)))
    → P (settle s (m >>= f))
settle->>= P s (ok a) f stopped next = next a refl
settle->>= P s (err e) f stopped next = stopped

pub settle-guard :
    {E S : Type 0} (P : S → Type 0) (s : S) (b : Bool) (e : E) (k : Result E S)
    → P s
    → (b ≡ true → P (settle s k))
    → P (settle s (guard b e >> k))
settle-guard P s true e k stopped next = next refl
settle-guard P s false e k stopped next = stopped

pub err-ne : {E A : Type 0} {x : E} {a : A} → err x ≡ ok a → ⊥
err-ne e = cc e

pub ok_inj : {E A : Type 0} {a b : A} → ◌≡◌ {A = Result E A} (ok a) (ok b) → a ≡ b
ok_inj e = cc e

-- A chain that gives a value has gone through its first part.
pub bind_ok :
    {E A B : Type 0} (m : Result E A) (f : A → Result E B) (b : B)
    → (m >>= f) ≡ ok b
    → (a : A) × (m ≡ ok a) × (f a ≡ ok b)
bind_ok (ok a) f b e = (a, refl, e)
bind_ok (err x) f b e = absurd (err-ne e)
