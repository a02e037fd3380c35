-- ===== src/Pairing.antt =====
-- pkg/pairing/telegram.go: the store of Telegram pairing requests. The store is the list of requests in
-- its file, none if there is no file. What fails on the way to the file is an argument: `read` and
-- `write` hold the error of load and of save. `Go` holds what the code takes from Go's library.
pub mod Codes
pub mod Single
pub mod Once
mod Examples
use vikram.Base.{
  ℕ, zero, suc, ◌+◌, ◌*◌, String, Bool, true, false, not, ◌&&◌, ◌||◌, List, [], ◌∷◌, ◌++◌, Option,
  none, some, ◌=s=◌, if◌then◌else◌, keep, any,
}
use vikram.Base.Int.{pos}
use vikram.Base.Result.{Result, ok, err}
use vikram.Base.Time.{Time, Duration, after, add, is_zero, minute}

pub record TelegramRequest : Type 0 where
  pub otp : String
  pub sender_id : String
  pub chat_id : String
  pub username : String
  pub first_name : String
  pub created_at : Time
  pub expires_at : Time

pub record Go : Type 0 where
  pub trim_space : String → String
  pub sprintf_06d : ℕ → String

pub record Faults : Type 0 where
  pub read : Option String
  pub write : Option String

pub data PairingError : Type 0 where
  pairing_not_found exhausted_attempts : PairingError
  io_error : String → PairingError

abbrev pub Store : Type 0
Store = List TelegramRequest

abbrev pub telegram_pairing_ttl : ℕ
telegram_pairing_ttl = 15 * minute

-- The test of load.
pub is_live : Time → TelegramRequest → Bool
is_live now r = is_zero r.expires_at || after r.expires_at now

-- The requests that have not expired, and whether any has.
pub load : Time → Store → Store × Bool
unfolding is_live
load now file = (keep (is_live now) file, any (λ r. not (is_live now r)) file)

-- The file after save, and the result `a` if there was no error.
pub save : {A : Type 0} → Option String → Store → A → Store → Store × Result PairingError A
save (some e) requests a file = (file, err (io_error e))
save none requests a file = (requests, ok a)

pub list_requests : Faults → Time → Store → Store × Result PairingError Store
unfolding load save
list_requests io now file = elim io.read [
  | some e ↦ (file, err (io_error e))
  | none ↦
      let (requests, changed) = load now file in
      if changed then save io.write requests requests file else (file, ok requests)
]

-- existingOTPs, as the test of membership.
pub has_otp : String → Store → Bool
has_otp otp requests = any (λ r. r.otp =s= otp) requests

-- `draws` are the answers of the random source; the attempt with `n` more to follow takes the n-th.
pub generate_otp : Go → (ℕ → Result String ℕ) → Store → ℕ → Result PairingError String
unfolding has_otp
generate_otp go draws requests zero = err exhausted_attempts
generate_otp go draws requests (suc n) =
    let rest = generate_otp go draws requests n in
    elim (draws n) [
      | err e ↦ err (io_error e)
      | ok k ↦ if has_otp (go.sprintf_06d k) requests then rest else ok (go.sprintf_06d k)
    ]

-- The loop that looks for the sender's request.
pub find_active : String → Time → Store → Option TelegramRequest
find_active sender now [] = none
find_active sender now (r ∷ rs) =
    if r.sender_id =s= sender && after r.expires_at now then some r else find_active sender now rs

pub new_request : Go → String → String → String → String → String → Time → TelegramRequest
new_request go otp sender chat username first_name now = record {
  otp = otp;
  sender_id = sender;
  chat_id = chat;
  username = go.trim_space username;
  first_name = go.trim_space first_name;
  created_at = now;
  expires_at = add now (pos telegram_pairing_ttl);
}

-- What CreateOrReuse does with a code, or without one.
pub created :
    Option String
    → (String → TelegramRequest)
    → Store
    → Store
    → Result PairingError String
    → Store × Result PairingError TelegramRequest
unfolding save
created write make requests file (err e) = (file, err e)
created write make requests file (ok otp) = save write (requests ++ make otp ∷ []) (make otp) file

abbrev pub reuse_or :
    Store
    → Store × Result PairingError TelegramRequest
    → Option TelegramRequest
    → Store × Result PairingError TelegramRequest
reuse_or file new (some r) = (file, ok r)
reuse_or file new none = new

pub create_in :
    Go
    → (ℕ → Result String ℕ)
    → Option String
    → (String → TelegramRequest)
    → String
    → Time
    → Store
    → Store
    → Store × Result PairingError TelegramRequest
unfolding find_active generate_otp created
create_in go draws write make sender now requests file =
    reuse_or file (created write make requests file (generate_otp go draws requests 20))
      (find_active sender now requests)

-- `loaded` is the time of load, `now` the later one of the clock's second reading.
pub create_or_reuse :
    Go
    → (ℕ → Result String ℕ)
    → Faults
    → String
    → String
    → String
    → String
    → Time
    → Time
    → Store
    → Store × Result PairingError TelegramRequest
unfolding create_in load new_request
create_or_reuse go draws io sender chat username first_name loaded now file = elim io.read [
  | some e ↦ (file, err (io_error e))
  | none ↦
      create_in go draws io.write (λ otp. new_request go otp sender chat username first_name now)
        sender now (load loaded file).0 file
]

-- The loop of Approve: the first request with the code, and the others.
pub take_request : String → Store → Option (TelegramRequest × Store)
take_request otp [] = none
take_request otp (r ∷ rs) =
    let rest = take_request otp rs in
    if r.otp =s= otp
    then some (r, rs)
    else elim rest [ none ↦ none | some (found, others) ↦ some (found, r ∷ others) ]

-- What Approve does after the loop: it saves the others, or the requests if some have expired.
pub approved :
    Option String
    → Bool
    → Store
    → Store
    → Option (TelegramRequest × Store)
    → Store × Result PairingError TelegramRequest
unfolding save
approved write changed requests file (some (r, others)) = save write others r file
approved (some e) true requests file none = (file, err (io_error e))
approved none true requests file none = (requests, err pairing_not_found)
approved write false requests file none = (file, err pairing_not_found)

pub approve_in :
    Option String → String → Store × Bool → Store → Store × Result PairingError TelegramRequest
unfolding approved take_request
approve_in write otp (requests, changed) file =
    approved write changed requests file (take_request otp requests)

pub approve : Go → Faults → String → Time → Store → Store × Result PairingError TelegramRequest
unfolding approve_in load
approve go io otp now file =
    if go.trim_space otp =s= "" then (file, err pairing_not_found) else elim io.read [
      | some e ↦ (file, err (io_error e))
      | none ↦ approve_in io.write (go.trim_space otp) (load now file) file
    ]
