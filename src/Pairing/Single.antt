-- ===== src/Pairing/Single.antt =====
-- pkg/pairing/telegram.go: codes stay distinct, and a code is good for one approval.
use vikram.Base.{
  ℕ, String, Bool, true, false, not, ◌≡◌, refl, sym, subst, List, [], ◌∷◌, ◌++◌, Option, none, some,
  Option-cases, Bool-cases, inl, inr, ◌=s=◌, keep, any,
}
use vikram.Base.Result.{Result, ok, err}
use vikram.Base.Time.{Time}
use vikram.Pairing.{
  TelegramRequest, Store, Go, Faults, PairingError, is_live, load, save, list_requests, has_otp,
  generate_otp, new_request, find_active, create_in, create_or_reuse, approve_in, approved, approve,
  created, reuse_or,
}
use vikram.Pairing.Codes.{
  distinct_codes, distinct_codes-keep, distinct_codes-append, has_otp-generate_otp, Taken,
  take_request-Taken,
}

save-distinct :
    {A : Type 0} (write : Option String) (requests : Store) (a : A) (file : Store)
    → distinct_codes requests ≡ true
    → distinct_codes file ≡ true
    → distinct_codes (save write requests a file).0 ≡ true
unfolding save
save-distinct (some e) requests a file dr df = df
save-distinct none requests a file dr df = dr

list_requests-distinct :
    (io : Faults) (now : Time) (file : Store)
    → distinct_codes file ≡ true
    → distinct_codes (list_requests io now file).0 ≡ true
unfolding list_requests load
list_requests-distinct io now file d = elim (Option-cases io.read) [
  | inl e ↦ elim (Bool-cases (any (λ r. not (is_live now r)) file)) [
    | inl t ↦
        rw (e, t) (save-distinct io.write _ _ file (distinct_codes-keep (is_live now) file d) d)
    | inr f ↦ rw (e, f) d
  ]
  | inr (x, e) ↦ rw e d
]

approved-distinct :
    (write : Option String) (otp : String) (changed : Bool) (requests file : Store)
    (t : Option (TelegramRequest × Store))
    → Taken otp requests t
    → distinct_codes requests ≡ true
    → distinct_codes file ≡ true
    → distinct_codes (approved write changed requests file t).0 ≡ true
unfolding approved
approved-distinct write otp changed requests file (some (r, others)) (_, d, _, _, _) dr df =
    save-distinct write others r file d df
approved-distinct (some e) otp true requests file none t dr df = df
approved-distinct none otp true requests file none t dr df = dr
approved-distinct write otp false requests file none t dr df = df

approve-distinct :
    (go : Go) (io : Faults) (otp : String) (now : Time) (file : Store)
    → distinct_codes file ≡ true
    → distinct_codes (approve go io otp now file).0 ≡ true
unfolding approve approve_in load
approve-distinct go io otp now file d = elim (Bool-cases (go.trim_space otp =s= "")) [
  | inl t ↦ rw t d
  | inr f ↦ elim (Option-cases io.read) [
    | inr (x, e) ↦ rw (f, e) d
    | inl e ↦
        let live = distinct_codes-keep (is_live now) file d in
        rw (f, e)
          (approved-distinct io.write (go.trim_space otp) _ (keep (is_live now) file) file _
            (take_request-Taken (go.trim_space otp) (keep (is_live now) file) live) live d)
  ]
]

created-distinct :
    (write : Option String) (make : String → TelegramRequest) (requests file : Store)
    (code : Result PairingError String)
    → ((otp : String) → (make otp).otp ≡ otp)
    → ((otp : String) → code ≡ ok otp → has_otp otp requests ≡ false)
    → distinct_codes requests ≡ true
    → distinct_codes file ≡ true
    → distinct_codes (created write make requests file code).0 ≡ true
unfolding created
created-distinct write make requests file (err e) named fresh dr df = df
created-distinct write make requests file (ok otp) named fresh dr df =
    let new = subst (λ c. has_otp c requests ≡ false) (sym (named otp)) (fresh otp refl) in
    save-distinct write (requests ++ make otp ∷ []) (make otp) file
      (distinct_codes-append requests (make otp) dr new) df

reuse_or-distinct :
    (file : Store) (new : Store × Result PairingError TelegramRequest) (o : Option TelegramRequest)
    → distinct_codes file ≡ true
    → distinct_codes new.0 ≡ true
    → distinct_codes (reuse_or file new o).0 ≡ true
reuse_or-distinct file new (some r) df dn = df
reuse_or-distinct file new none df dn = dn

create_or_reuse-distinct :
    (go : Go) (draws : ℕ → Result String ℕ) (io : Faults) (sender chat username first_name : String)
    (loaded now : Time) (file : Store)
    → distinct_codes file ≡ true
    → distinct_codes (create_or_reuse go draws io sender chat username first_name loaded now file).0
      ≡ true
unfolding create_or_reuse create_in load new_request
create_or_reuse-distinct go draws io sender chat username first_name loaded now file d =
    elim (Option-cases io.read) [
      | inr (x, e) ↦ rw e d
      | inl e ↦
          let requests = keep (is_live loaded) file in
          let live = distinct_codes-keep (is_live loaded) file d in
          rw e (
            reuse_or-distinct file _ (find_active sender now requests) d (
              created-distinct io.write
                (λ otp. new_request go otp sender chat username first_name now) requests file
                (generate_otp go draws requests 20) (λ otp. refl)
                (λ otp. has_otp-generate_otp go draws requests 20 otp) live d))
    ]

pub data Call : Type 0 where
  list : Faults → Time → Call
  create : (ℕ → Result String ℕ) → Faults → String → String → String → String → Time → Time → Call
  approve_code : Faults → String → Time → Call

module _ (go : Go) where
  -- The store after the calls; the latest comes first.
  unfoldable pub run : List Call → Store
  unfolding list_requests create_or_reuse approve
  run [] = []
  run (list io now ∷ cs) = (list_requests io now (run cs)).0
  run (create draws io sender chat username first_name loaded now ∷ cs) =
      (create_or_reuse go draws io sender chat username first_name loaded now (run cs)).0
  run (approve_code io otp now ∷ cs) = (approve go io otp now (run cs)).0

  -- From an empty store, after any calls with any faults and random numbers, no two requests have the
  -- same code.
  pub run-distinct : (cs : List Call) → distinct_codes (run cs) ≡ true
  unfolding run
  run-distinct [] = refl
  run-distinct (list io now ∷ cs) = list_requests-distinct io now (run cs) (run-distinct cs)
  run-distinct (create draws io sender chat username first_name loaded now ∷ cs) =
      create_or_reuse-distinct go draws io sender chat username first_name loaded now (run cs)
        (run-distinct cs)
  run-distinct (approve_code io otp now ∷ cs) =
      approve-distinct go io otp now (run cs) (run-distinct cs)
