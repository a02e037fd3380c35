-- ===== src/Trace.antt =====
-- pkg/telemetry/trace_verifier.go: the verifier of the execution trace's hash chain. `F` stands for
-- float64 and `L` for the JSON values that are neither objects nor arrays. `Go` holds what the code
-- takes from Go's library: SHA-256 in hexadecimal, fmt.Sprintf, encoding/json and the sorts.
pub mod Canonical
pub mod Chain
pub mod Payload
pub mod Ticks
pub mod Writer
mod Examples
use Prim.Native.String.{◌++◌ as text_append}
use vikram.Base.{
  ℕ, zero, suc, ◌+◌, String, Bool, true, false, List, [], ◌∷◌, Option, none, some, ◌=s=◌, ◌==◌,
  if◌then◌else◌, ltb,
}
use vikram.Base.Int.{ℤ, pos, negsuc}
use vikram.Base.Result.{Result, ok, err, guard, ◌>>◌}
use vikram.Base.Time.{Time}
use vikram.Trace.Canonical.{Members, canonical_json}

pub record TraceRecord (F L : Type 0) : Type 0 where
  pub sequence_number : ℤ
  pub task_id : String
  pub decision_type : String
  pub timestamp : F
  pub state_snapshot : Option (Members L)
  pub policy_evaluated : String
  pub outcome : String
  pub non_deterministic_inputs : Option (Members L)
  pub previous_hash : String
  pub record_hash : String

pub record Go (F L : Type 0) : Type 0 where
  pub sha256_hex : String → String
  pub sprintf_d : ℤ → String
  pub sprintf_g : F → String
  pub sprintf_6f : F → String
  pub has_exponent : String → Bool
  pub trim_zeros : String → String
  pub ends_with_dot : String → Bool
  pub quote : String → String
  pub marshal : L → Option String
  pub sort_strings : List String → List String
  pub sort_records : List (TraceRecord F L) → List (TraceRecord F L)

pub record TraceVerifier (F L : Type 0) : Type 0 where
  pub batch_size : ℕ
  pub genesis_hash : String
  pub next_seq : ℕ  -- lastVerifiedSeq + 1
  pub last_verified_at : Time
  pub violation_detected : Bool
  pub alerts : ℕ

pub data VerifyError : Type 0 where
  previous_hash_mismatch hash_mismatch : ℤ → VerifyError

abbrev pub is_zero_int : ℤ → Bool
is_zero_int (pos n) = n == 0
is_zero_int (negsuc n) = false

-- strings.Join(parts, "||")
pub join : List String → String
join [] = ""
join (p ∷ []) = p
join (p ∷ q ∷ ps) = text_append p (text_append "||" (join (q ∷ ps)))

module _ {F L : Type 0} where
  pub last_verified_seq : TraceVerifier F L → ℤ
  last_verified_seq tv = elim tv.next_seq [ zero ↦ negsuc 0 | suc n ↦ pos n ]

  pub settle_batch : Result VerifyError Unit → Time → TraceVerifier F L → TraceVerifier F L
  settle_batch (err e) now tv = record tv { violation_detected = true; alerts = suc tv.alerts }
  settle_batch (ok _) now tv = record tv {
    next_seq = tv.next_seq + tv.batch_size;
    last_verified_at = now;
  }

module _ {F L : Type 0} (go : Go F L) where
  abbrev plain_text : String → String
  plain_text t = if go.ends_with_dot t then text_append t "0" else t

  pub format_timestamp : F → String
  format_timestamp ts =
      if go.has_exponent (go.sprintf_g ts)
      then plain_text (go.trim_zeros (go.sprintf_6f ts))
      else go.sprintf_g ts

  pub payload : TraceRecord F L → String
  unfolding join format_timestamp canonical_json
  payload r = join (
      go.sprintf_d r.sequence_number
      ∷ r.task_id
      ∷ r.decision_type
      ∷ format_timestamp r.timestamp
      ∷ canonical_json go.quote go.marshal go.sort_strings r.state_snapshot
      ∷ r.policy_evaluated
      ∷ r.outcome
      ∷ canonical_json go.quote go.marshal go.sort_strings r.non_deterministic_inputs
      ∷ r.previous_hash
      ∷ [])

  pub compute_record_hash : TraceRecord F L → String
  unfolding payload
  compute_record_hash r = go.sha256_hex (payload r)

  -- The previous hash that is expected of a record after `before`, the record before it in the batch.
  pub expected_prev : String → Option (TraceRecord F L) → TraceRecord F L → String
  expected_prev genesis before r =
      if is_zero_int r.sequence_number
      then genesis
      else elim before [ none ↦ r.previous_hash | some b ↦ b.record_hash ]

  -- The loop over the sorted records.
  pub verify_records :
      String → Option (TraceRecord F L) → List (TraceRecord F L) → Result VerifyError Unit
  unfolding expected_prev compute_record_hash
  verify_records genesis before [] = ok tt
  verify_records genesis before (r ∷ rs) =
      guard (r.previous_hash =s= expected_prev genesis before r)
        (previous_hash_mismatch r.sequence_number)
      >> guard (r.record_hash =s= compute_record_hash r) (hash_mismatch r.sequence_number)
      >> verify_records genesis (some r) rs

  pub verify_batch : List (TraceRecord F L) → TraceVerifier F L → Result VerifyError Unit
  unfolding verify_records
  verify_batch [] tv = ok tt
  verify_batch (r ∷ records) tv =
      verify_records tv.genesis_hash none (go.sort_records (r ∷ records))

  -- `fetch` is the fetcher's answer for the range.
  pub verify_range :
      (ℕ → ℕ → Result String (List (TraceRecord F L)))
      → ℕ
      → ℕ
      → TraceVerifier F L
      → Result String (Result VerifyError Unit)
  unfolding verify_batch
  verify_range fetch start_seq end_seq tv = elim (fetch start_seq end_seq) [
    | err e ↦ err e
    | ok records ↦ ok (verify_batch records tv)
  ]

  -- One tick. `total` and `records` are the fetcher's answers, the latter for the sequence numbers from
  -- `next_seq` on, `batch_size` of them.
  pub verify_next :
      Result String ℕ
      → Result String (List (TraceRecord F L))
      → Time
      → TraceVerifier F L
      → TraceVerifier F L
  unfolding verify_batch settle_batch
  verify_next (err e) records now tv = tv
  verify_next (ok total) (err e) now tv = tv
  verify_next (ok total) (ok records) now tv =
      if ltb total (tv.next_seq + tv.batch_size)
      then tv
      else settle_batch (verify_batch records tv) now tv

pub new_trace_verifier : {F L : Type 0} → ℕ → String → TraceVerifier F L
new_trace_verifier batch_size genesis_hash = record {
  batch_size = batch_size;
  genesis_hash = genesis_hash;
  next_seq = 0;
  last_verified_at = 0;
  violation_detected = false;
  alerts = 0;
}
