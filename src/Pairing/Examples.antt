-- ===== src/Pairing/Examples.antt =====
-- Runs of pkg/pairing/telegram.go with a code generator that writes every code as "000007" or "000009".
use vikram.Base.{
  ℕ, ◌+◌, ◌*◌, String, true, ◌≡◌, ◌≢◌, refl, List, [], ◌∷◌, none, ◌=s=◌, ◌==◌, if◌then◌else◌,
}
use vikram.Base.Result.{Result, ok}
use vikram.Base.Time.{minute}
use vikram.Pairing.{has_otp, TelegramRequest, Store, Go, Faults, create_or_reuse, approve, is_live}
use vikram.Pairing.Codes.{distinct_codes}
use vikram.Pairing.Single.{Call, list, create, approve_code, run, run-distinct}
use vikram.Pairing.Once.{approve-once}

abbrev go : Go
go = record { trim_space = λ s. s; sprintf_06d = λ n. if n == 7 then "000007" else "000009" }

abbrev no_faults : Faults
no_faults = record { read = none; write = none }

abbrev draws : ℕ → Result String ℕ
draws n = if n == 19 then ok 7 else ok 9

abbrev ann : TelegramRequest
ann = record {
  otp = "000007";
  sender_id = "ann";
  chat_id = "1";
  username = "ann";
  first_name = "Ann";
  created_at = 10;
  expires_at = 10 + 15 * minute;
}

abbrev bob : TelegramRequest
bob = record ann { otp = "000009"; sender_id = "bob" }

abbrev both : Store
both = ann ∷ bob ∷ []

abbrev calls : List Call
calls =
    approve_code no_faults "000007" 30
    ∷ create draws no_faults "bob" "2" "bob" "Bob" 20 20
    ∷ create draws no_faults "ann" "1" "ann" "Ann" 10 10
    ∷ list no_faults 5
    ∷ []

run-distinct_example : distinct_codes (run go calls) ≡ true
run-distinct_example = run-distinct go calls

one_left :
    run go calls
    ≡ record ann {
      otp = "000009";
      sender_id = "bob";
      chat_id = "2";
      username = "bob";
      first_name = "Bob";
      created_at = 20;
      expires_at = 20 + 15 * minute;
    }
      ∷ []
unfolding run create_or_reuse approve ◌=s=◌
one_left = refl

ann-approved : (approve go no_faults "000007" 50 both).1 ≡ ok ann
unfolding approve ◌=s=◌
ann-approved = refl

both-distinct : distinct_codes both ≡ true
unfolding has_otp ◌=s=◌
both-distinct = refl

approve-once_example :
    (ann.otp ≡ go.trim_space "000007")
    × (is_live 50 ann ≡ true)
    × ((approve go no_faults "000007" 60 (approve go no_faults "000007" 50 both).0).1 ≢ ok ann)
approve-once_example =
    approve-once go no_faults no_faults "000007" "000007" 50 60 both ann ann both-distinct
      ann-approved refl
