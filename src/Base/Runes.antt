-- ===== src/Base/Runes.antt =====
-- Go strings that the code walks rune by rune, as lists of code points, with what the code uses of
-- the packages strings and path/filepath.
use Prim.Native.Char.{code}
use Prim.Native.Nat.{ℕ}
use Prim.Native.String.{String}
use mathlib.Core.Path.{◌≡◌, refl}
use mathlib.Core.Bool.{Bool, true, false, ◌&&◌, ◌||◌}
use mathlib.Core.List.{List, [], ◌∷◌}
use native.Mathlib.Omega.{arith}
use vikram.Base.Tests.{leb, ◌==◌, if◌then◌else◌}
use vikram.Base.Lists.{any}

abbrev pub Runes : Type 0
Runes = List ℕ

abbrev pub codes : String → Runes
codes String.[] = []
codes (String.◌∷◌ c s) = code c ∷ codes s

-- Go's == on strings.
infix 50 ◌=r=◌
unfoldable pub ◌=r=◌ : Runes → Runes → Bool
[] =r= [] = true
[] =r= (d ∷ t) = false
(c ∷ s) =r= [] = false
(c ∷ s) =r= (d ∷ t) = (c == d) && (s =r= t)

unfoldable pub has_prefix : Runes → Runes → Bool
has_prefix s [] = true
has_prefix [] (d ∷ t) = false
has_prefix (c ∷ s) (d ∷ t) = (c == d) && has_prefix s t

unfoldable pub contains : Runes → Runes → Bool
contains [] t = has_prefix [] t
contains (c ∷ s) t = has_prefix (c ∷ s) t || contains s t

-- strings.TrimPrefix
unfoldable pub drop_prefix : Runes → Runes → Runes
drop_prefix s [] = s
drop_prefix [] (d ∷ t) = []
drop_prefix (c ∷ s) (d ∷ t) = drop_prefix s t

unfoldable pub trim_prefix : Runes → Runes → Runes
unfolding has_prefix drop_prefix
trim_prefix s t = if has_prefix s t then drop_prefix s t else s

-- unicode.IsSpace
unfoldable pub is_space : ℕ → Bool
is_space c =
    (leb 9 c && leb c 13)
    || c == 32
    || c == 0x85
    || c == 0xA0
    || c == 0x1680
    || (leb 0x2000 c && leb c 0x200A)
    || c == 0x2028
    || c == 0x2029
    || c == 0x202F
    || c == 0x205F
    || c == 0x3000

abbrev is_nil : Runes → Bool
is_nil [] = true
is_nil (c ∷ s) = false

unfoldable pub trim_left : Runes → Runes
unfolding is_space
trim_left [] = []
trim_left (c ∷ s) = if is_space c then trim_left s else c ∷ s

unfoldable pub trim_right : Runes → Runes
unfolding is_space
trim_right [] = []
trim_right (c ∷ s) = let rest = trim_right s in if is_space c && is_nil rest then [] else c ∷ rest

unfoldable pub trim_space : Runes → Runes
unfolding trim_left trim_right
trim_space s = trim_right (trim_left s)

-- The first of strings.Fields.
unfoldable pub until_space : Runes → Runes
unfolding is_space
until_space [] = []
until_space (c ∷ s) = if is_space c then [] else c ∷ until_space s

-- filepath.Base, with the slash as separator: the slashes at the end fall, then all up to the last
-- slash; the empty path gives ".", and one of slashes only gives "/".
unfoldable pub trim_slashes : Runes → Runes
trim_slashes [] = []
trim_slashes (c ∷ s) =
    let rest = trim_slashes s in if c == b'/' && is_nil rest then [] else c ∷ rest

unfoldable pub after_slash : Runes → Runes → Runes
after_slash [] last = last
after_slash (c ∷ s) last = if c == b'/' then after_slash s s else after_slash s last

abbrev or_slash : Runes → Runes
or_slash [] = b'/' ∷ []
or_slash (c ∷ s) = c ∷ s

unfoldable pub base_name : Runes → Runes
unfolding trim_slashes after_slash
base_name [] = b'.' ∷ []
base_name (c ∷ s) = let kept = trim_slashes (c ∷ s) in or_slash (after_slash kept kept)

unfoldable pub is_one_of : List Runes → Runes → Bool
unfolding ◌=r=◌
is_one_of names s = any (λ n. s =r= n) names

pub runes_eq : (s t : Runes) → (s =r= t) ≡ true → s ≡ t
unfolding ◌=r=◌
runes_eq [] [] h = refl
runes_eq [] (d ∷ t) h = absurd (ground (arith, h))
runes_eq (c ∷ s) [] h = absurd (ground (arith, h))
runes_eq (c ∷ s) (d ∷ t) h =
    let e : c ≡ d = ground (arith, h) in
    let es : s ≡ t = runes_eq s t (ground (arith, h)) in cc (e, es)

pub runes_eq_refl : (s : Runes) → (s =r= s) ≡ true
unfolding ◌=r=◌
runes_eq_refl [] = refl
runes_eq_refl (c ∷ s) = ground (arith, runes_eq_refl s)

base_name_runs : base_name (codes "/usr/bin/ls") ≡ codes "ls"
unfolding base_name after_slash trim_slashes
base_name_runs = refl
