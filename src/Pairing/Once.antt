-- ===== src/Pairing/Once.antt =====
-- pkg/pairing/telegram.go: what Approve gives, and that a code is good for one approval.
use vikram.Base.{
  String, Bool, true, false, ◌≡◌, ◌≢◌, refl, sym, ap, subst, ◌∙◌, List, [], ◌∷◌, Option, none, some,
  ◌=s=◌, keep, all, arith, if◌then◌else◌,
}
use vikram.Base.Result.{Result, ok, err}
use vikram.Base.Time.{Time}
use vikram.Pairing.{
  TelegramRequest, Store, Go, Faults, PairingError, is_live, load, save, has_otp, pairing_not_found,
  io_error, take_request, approve_in, approved, approve,
}
use vikram.Pairing.Codes.{
  distinct_codes, distinct_codes-keep, has_otp-keep, Taken, take_request-Taken,
}

all-keep : {A : Type 0} (p : A → Bool) (xs : List A) → all p (keep p xs) ≡ true
all-keep p [] = refl
all-keep p (x ∷ xs) = ground (arith, all-keep p xs)

abbrev result_or : {E A : Type 0} → A → Result E A → A
result_or a (ok b) = b
result_or a (err e) = a

-- What holds of an approved request and of the file after it.
abbrev Approved : (TelegramRequest → Bool) → String → TelegramRequest → Store → Type 0
Approved live c r file = (r.otp ≡ c) × (live r ≡ true) × (has_otp c file ≡ false)

approved-Approved :
    (live : TelegramRequest → Bool) (write : Option String) (c : String) (changed : Bool)
    (requests file : Store) (t : Option (TelegramRequest × Store)) (r : TelegramRequest)
    → Taken c requests t
    → all live requests ≡ true
    → (approved write changed requests file t).1 ≡ ok r
    → Approved live c r (approved write changed requests file t).0
unfolding approved save
approved-Approved live none c changed requests file (some (q, others)) r
      (named, d, gone, fewer, found) a h =
    subst (λ z. Approved live c z others) (ap (result_or q) h) (named, found live a, gone)
approved-Approved live (some e) c changed requests file (some (q, others)) r t a h = ground arith
approved-Approved live none c true requests file none r t a h = ground arith
approved-Approved live (some e) c true requests file none r t a h = ground arith
approved-Approved live write c false requests file none r t a h = ground arith

take_request-none : (c : String) (rs : Store) → has_otp c rs ≡ false → take_request c rs ≡ none
unfolding take_request has_otp
take_request-none c [] h = refl
take_request-none c (x ∷ rs) h = ground (arith, take_request-none c rs)

approved-refused :
    (write : Option String) (changed : Bool) (requests file : Store) (q : TelegramRequest)
    → (approved write changed requests file none).1 ≢ ok q
unfolding approved
approved-refused (some e) true requests file q h = ground arith
approved-refused none true requests file q h = ground arith
approved-refused write false requests file q h = ground arith

-- `P` holds of what a call returns, if it returns a request, and of the file after it.
abbrev Yields :
    (TelegramRequest → Store → Type 0) → Store × Result PairingError TelegramRequest → Type 0
Yields P (file, result) = (r : TelegramRequest) → result ≡ ok r → P r file

-- The two guards of Approve return errors.
guards-Yields :
    (P : TelegramRequest → Store → Type 0) (empty : Bool) (read : Option String) (file : Store)
    (rest : Store × Result PairingError TelegramRequest)
    → Yields P rest
    → Yields P (
        if empty
        then (file, err pairing_not_found)
        else elim read [ some e ↦ (file, err (io_error e)) | none ↦ rest ])
guards-Yields P true read file rest y r h = ground arith
guards-Yields P false (some e) file rest y r h = ground arith
guards-Yields P false none file rest y r h = y r h

module _ (go : Go) where
  approve-Approved :
      (io : Faults) (otp : String) (now : Time) (file : Store) (r : TelegramRequest)
      → distinct_codes file ≡ true
      → (approve go io otp now file).1 ≡ ok r
      → Approved (is_live now) (go.trim_space otp) r (approve go io otp now file).0
  unfolding approve approve_in load
  approve-Approved io otp now file r d h =
      let c = go.trim_space otp in
      let requests = keep (is_live now) file in
      guards-Yields (Approved (is_live now) c) (c =s= "") io.read file
        (approve_in io.write c (load now file) file)
        (λ q e.
          approved-Approved (is_live now) io.write c _ requests file (take_request c requests) q
            (take_request-Taken c requests (distinct_codes-keep (is_live now) file d))
            (all-keep (is_live now) file) e)
        r h

  approve-refused :
      (io : Faults) (otp : String) (now : Time) (file : Store) (q : TelegramRequest)
      → has_otp (go.trim_space otp) file ≡ false
      → (approve go io otp now file).1 ≢ ok q
  unfolding approve approve_in load
  approve-refused io otp now file q f h =
      let c = go.trim_space otp in
      let requests = keep (is_live now) file in
      let changed = (load now file).1 in
      guards-Yields (λ _ _. ⊥) (c =s= "") io.read file (approve_in io.write c (load now file) file)
        (λ p e. approved-refused io.write changed requests file p (
          ap (λ t. (approved io.write changed requests file t).1)
            (sym (take_request-none c requests (has_otp-keep (is_live now) c file f)))
          ∙ e))
        q h

  -- A request that Approve returns has the given code, less spaces around it, and has not expired; and
  -- after it no approval of this code succeeds on the file that is left, at any time and with any faults.
  pub approve-once :
      (io io' : Faults) (otp otp' : String) (now now' : Time) (file : Store) (r q : TelegramRequest)
      → distinct_codes file ≡ true
      → (approve go io otp now file).1 ≡ ok r
      → go.trim_space otp' ≡ go.trim_space otp
      → (r.otp ≡ go.trim_space otp)
        × (is_live now r ≡ true)
        × ((approve go io' otp' now' (approve go io otp now file).0).1 ≢ ok q)
  approve-once io io' otp otp' now now' file r q d h e =
      let (named, live, gone) = approve-Approved io otp now file r d h in
      (
        named,
        live,
        approve-refused io' otp' now' _ q
            (subst (λ c. has_otp c (approve go io otp now file).0 ≡ false) (sym e) gone),
      )
