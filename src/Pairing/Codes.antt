-- ===== src/Pairing/Codes.antt =====
-- The codes of the requests of pkg/pairing/telegram.go.
use vikram.Base.{
  ℕ, zero, suc, String, Bool, true, false, not, ◌&&◌, ◌||◌, ◌≡◌, refl, subst, [], ◌∷◌, ◌++◌, Option,
  none, some, Bool-cases, inl, inr, ◌=s=◌, str_eq_iff, str_eq_sym, keep, all, any-append, arith,
}
use vikram.Base.Result.{Result, ok}
use vikram.Pairing.{TelegramRequest, Store, Go, has_otp, generate_otp, take_request}

-- No two requests have the same code.
abbrev pub distinct_codes : Store → Bool
distinct_codes [] = true
distinct_codes (r ∷ rs) = not (has_otp r.otp rs) && distinct_codes rs

pub has_otp-keep :
    (p : TelegramRequest → Bool) (c : String) (rs : Store)
    → has_otp c rs ≡ false
    → has_otp c (keep p rs) ≡ false
unfolding has_otp
has_otp-keep p c [] h = refl
has_otp-keep p c (r ∷ rs) h = ground (arith, has_otp-keep p c rs)

pub distinct_codes-keep :
    (p : TelegramRequest → Bool) (rs : Store)
    → distinct_codes rs ≡ true
    → distinct_codes (keep p rs) ≡ true
distinct_codes-keep p [] h = refl
distinct_codes-keep p (r ∷ rs) h = ground (arith, distinct_codes-keep p rs, has_otp-keep p r.otp rs)

has_otp-append :
    (c : String) (rs : Store) (r : TelegramRequest)
    → has_otp c (rs ++ r ∷ []) ≡ (has_otp c rs || (r.otp =s= c))
unfolding has_otp
has_otp-append c rs r =
    ground (arith, any-append (λ (x : TelegramRequest). x.otp =s= c) rs (r ∷ []))

pub distinct_codes-append :
    (rs : Store) (r : TelegramRequest)
    → distinct_codes rs ≡ true
    → has_otp r.otp rs ≡ false
    → distinct_codes (rs ++ r ∷ []) ≡ true
unfolding has_otp
distinct_codes-append [] r h f = refl
distinct_codes-append (x ∷ rs) r h f =
    ground (arith, distinct_codes-append rs r, has_otp-append x.otp rs r, str_eq_sym x.otp r.otp)

pub has_otp-generate_otp :
    (go : Go) (draws : ℕ → Result String ℕ) (rs : Store) (n : ℕ) (otp : String)
    → generate_otp go draws rs n ≡ ok otp
    → has_otp otp rs ≡ false
unfolding generate_otp
has_otp-generate_otp go draws rs zero otp h = ground arith
has_otp-generate_otp go draws rs (suc n) otp h =
    ground (arith, has_otp-generate_otp go draws rs n otp)

-- What the loop of Approve gives for a code: a request with the code and the others, none of which has
-- it, or none has it.
abbrev pub Taken : String → Store → Option (TelegramRequest × Store) → Type 0
Taken c rs none = has_otp c rs ≡ false
Taken c rs (some (r, others)) =
    (r.otp ≡ c)
    × (distinct_codes others ≡ true)
    × (has_otp c others ≡ false)
    × ((d : String) → has_otp d rs ≡ false → has_otp d others ≡ false)
    × ((p : TelegramRequest → Bool) → all p rs ≡ true → p r ≡ true)

Taken-first :
    (c : String) (x : TelegramRequest) (rs : Store)
    → distinct_codes (x ∷ rs) ≡ true
    → (x.otp =s= c) ≡ true
    → Taken c (x ∷ rs) (some (x, rs))
unfolding has_otp
Taken-first c x rs d h =
    let same = (str_eq_iff x.otp c).0 h in
    (
      same,
      ground arith,
      subst (λ z. has_otp z rs ≡ false) same (ground arith),
      λ e f. ground arith,
      λ p a. ground arith,
    )

Taken-second :
    (c : String) (x : TelegramRequest) (rs : Store) (t : Option (TelegramRequest × Store))
    → distinct_codes (x ∷ rs) ≡ true
    → (x.otp =s= c) ≡ false
    → Taken c rs t
    → Taken c (x ∷ rs) (elim t [ none ↦ none | some (found, others) ↦ some (found, x ∷ others) ])
unfolding has_otp
Taken-second c x rs none d h k = ground arith
Taken-second c x rs (some (r, others)) d h (same, distinct, gone, fewer, found) = (
  same,
  ground (arith, fewer x.otp),
  ground arith,
  λ e f. ground (arith, fewer e),
  λ p a. found p (ground arith),
)

pub take_request-Taken :
    (c : String) (rs : Store) → distinct_codes rs ≡ true → Taken c rs (take_request c rs)
unfolding take_request has_otp
take_request-Taken c [] d = refl
take_request-Taken c (x ∷ rs) d = elim (Bool-cases (x.otp =s= c)) [
  | inl t ↦ rw t (Taken-first c x rs d t)
  | inr f ↦
      rw f (Taken-second c x rs (take_request c rs) d f (take_request-Taken c rs (ground arith)))
]
