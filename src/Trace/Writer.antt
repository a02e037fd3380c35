-- ===== src/Trace/Writer.antt =====
-- pkg/telemetry/trace_verifier.go against the writer of the traces, ExecutionTrace in
-- services/orchestrator/src/vikram_orchestrator/execution_trace.py, with its records in memory.
use vikram.Base.{
  ℕ, suc, String, ◌≡◌, refl, sym, ap, ◌∙◌, true, false, List, [], ◌∷◌, ◌++◌, Option, none, some,
  ◌=s=◌, ◌==◌, arith, if◌then◌else◌, length, length-append, str_eq_refl,
}
use vikram.Base.Int.{ℤ, pos}
use vikram.Base.Result.{Result, ok, err, guard, ◌>>◌}
use vikram.Trace.{
  TraceRecord, Go, TraceVerifier, VerifyError, previous_hash_mismatch, hash_mismatch, is_zero_int,
  join, format_timestamp, payload, compute_record_hash, expected_prev, verify_records, verify_batch,
}
use vikram.Trace.Canonical.{Members, no_members, canonical_json}
use vikram.Trace.Chain.{last_hash}

-- How a language writes an integer, a float and an object.
pub record Texts (F L : Type 0) : Type 0 where
  pub str_int : ℤ → String
  pub str_float : F → String
  pub dumps : Members L → String

-- Python's library: SHA-256 of a text in hexadecimal, and str and json.dumps.
pub record Python (F L : Type 0) : Type 0 where
  pub sha256_hex : String → String
  pub texts : Texts F L

-- The arguments of a call of `record_decision`, and the time of the call.
pub record Decision (F L : Type 0) : Type 0 where
  pub time : F
  pub task_id : String
  pub decision_type : String
  pub state_snapshot : Members L
  pub policy : String
  pub outcome : String
  pub nd_inputs : Option (Members L)

pub record ExecutionTrace (F L : Type 0) : Type 0 where
  pub genesis_hash : String
  pub records : List (TraceRecord F L)
  pub next_sequence : ℕ

unfoldable pub new_execution_trace : {F L : Type 0} → String → ExecutionTrace F L
new_execution_trace genesis_hash = record {
  genesis_hash = genesis_hash;
  records = [];
  next_sequence = 0;
}

abbrev or_empty : {L : Type 0} → Option (Members L) → Members L
or_empty none = no_members
or_empty (some members) = members

-- The text that the writer hashes for a decision, in the texts of a language.
abbrev pub hashed_text : {F L : Type 0} → Texts F L → Decision F L → ℕ → String → String
hashed_text texts d n previous_hash = join (
    Texts.str_int texts (pos n)
    ∷ Decision.task_id d
    ∷ Decision.decision_type d
    ∷ Texts.str_float texts (Decision.time d)
    ∷ Texts.dumps texts (Decision.state_snapshot d)
    ∷ Decision.policy d
    ∷ Decision.outcome d
    ∷ Texts.dumps texts (or_empty (Decision.nd_inputs d))
    ∷ previous_hash
    ∷ [])

-- The texts of the verifier.
abbrev pub go_texts : {F L : Type 0} → Go F L → Texts F L
go_texts go = record {
  str_int = Go.sprintf_d go;
  str_float = format_timestamp go;
  dumps = λ m. canonical_json (Go.quote go) (Go.marshal go) (Go.sort_strings go) (some m);
}

module _ {F L : Type 0} (py : Python F L) where
  -- The record of a decision. Each record but the first has the hash of the last one before it.
  unfoldable pub record_of : Decision F L → ℕ → String → TraceRecord F L
  unfolding join
  record_of d n previous_hash = record {
    sequence_number = pos n;
    task_id = d.task_id;
    decision_type = d.decision_type;
    timestamp = d.time;
    state_snapshot = some d.state_snapshot;
    policy_evaluated = d.policy;
    outcome = d.outcome;
    non_deterministic_inputs = some (or_empty d.nd_inputs);
    previous_hash = previous_hash;
    record_hash = py.sha256_hex (hashed_text py.texts d n previous_hash);
  }

  abbrev pub previous : ExecutionTrace F L → String
  previous t = if t.next_sequence == 0 then t.genesis_hash else last_hash t.genesis_hash t.records

  unfoldable pub record_decision : Decision F L → ExecutionTrace F L → ExecutionTrace F L
  unfolding record_of
  record_decision d t = record t {
    records = t.records ++ record_of d t.next_sequence (previous t) ∷ [];
    next_sequence = suc t.next_sequence;
  }

  -- After these decisions, the newest first.
  unfoldable pub trace_of : String → List (Decision F L) → ExecutionTrace F L
  unfolding new_execution_trace record_decision
  trace_of genesis [] = new_execution_trace genesis
  trace_of genesis (d ∷ ds) = record_decision d (trace_of genesis ds)

  -- The verdict on the trace: the error at the first decision for which the hash of the other language's
  -- text is not that of Python's.
  unfoldable pub verdict : Texts F L → String → List (Decision F L) → Result VerifyError Unit
  unfolding trace_of
  verdict texts genesis [] = ok tt
  verdict texts genesis (d ∷ ds) =
      let t = trace_of genesis ds in
      let n = t.next_sequence in
      verdict texts genesis ds
      >> guard
          (py.sha256_hex (hashed_text py.texts d n (previous t))
            =s= py.sha256_hex (hashed_text texts d n (previous t)))
          (hash_mismatch (pos n))

-- The record before the end of a list, with one before its start.
last_of : {A : Type 0} → Option A → List A → Option A
last_of b [] = b
last_of b (r ∷ rs) = last_of (some r) rs

then_then : {E : Type 0} (a b : Result E Unit) (k : Result E Unit) → (a >> (b >> k)) ≡ (a >> b >> k)
then_then (ok x) b k = refl
then_then (err e) b k = refl

then_ok : {E : Type 0} (a : Result E Unit) → (a >> ok tt) ≡ a
then_ok (ok tt) = refl
then_ok (err e) = refl

module _ {F L : Type 0} (go : Go F L) (genesis : String) where
  -- One record of the loop.
  abbrev check : Option (TraceRecord F L) → TraceRecord F L → Result VerifyError Unit
  check before r =
      guard (r.previous_hash =s= expected_prev go genesis before r)
        (previous_hash_mismatch r.sequence_number)
      >> guard (r.record_hash =s= compute_record_hash go r) (hash_mismatch r.sequence_number)

  verify_records-last :
      (before : Option (TraceRecord F L)) (rs : List (TraceRecord F L)) (r : TraceRecord F L)
      → verify_records go genesis before (rs ++ r ∷ [])
        ≡ (verify_records go genesis before rs >> check (last_of before rs) r)
  unfolding verify_records last_of
  verify_records-last before [] r = then_ok (check before r)
  verify_records-last before (q ∷ rs) r =
      ap (λ k. check before q >> k) (verify_records-last (some q) rs r)
      ∙ then_then (check before q) (verify_records go genesis (some q) rs) _

  -- The hash expected after a list of records, of a record that is not the first.
  expected_prev-last :
      (b r : TraceRecord F L) (rs : List (TraceRecord F L))
      → is_zero_int r.sequence_number ≡ false
      → expected_prev go genesis (last_of (some b) rs) r ≡ last_hash b.record_hash rs
  unfolding expected_prev last_of
  expected_prev-last b r [] z = ap (λ x. if x then genesis else b.record_hash) z
  expected_prev-last b r (q ∷ rs) z = expected_prev-last q r rs z

  expected_prev-next :
      (r : TraceRecord F L) (n : ℕ) (rs : List (TraceRecord F L))
      → n ≡ length rs
      → is_zero_int r.sequence_number ≡ (n == 0)
      → expected_prev go genesis (last_of none rs) r
        ≡ (if n == 0 then genesis else last_hash genesis rs)
  unfolding expected_prev last_of
  expected_prev-next r n [] e z = let zero : (n == 0) ≡ true = rw e refl in rw (z, zero) refl
  expected_prev-next r n (b ∷ rs) e z =
      let later : (n == 0) ≡ false = ground (arith, e) in
      expected_prev-last b r rs (z ∙ later)
      ∙ ap (λ x. if x then genesis else last_hash genesis (b ∷ rs)) (sym later)

module _ {F L : Type 0} (py : Python F L) (genesis : String) where
  trace_of-counts :
      (ds : List (Decision F L))
      → ((trace_of py genesis ds).next_sequence ≡ length (trace_of py genesis ds).records)
        × ((trace_of py genesis ds).genesis_hash ≡ genesis)
  unfolding trace_of record_decision new_execution_trace
  trace_of-counts [] = (refl, refl)
  trace_of-counts (d ∷ ds) =
      let (n, g) = trace_of-counts ds in
      let t = trace_of py genesis ds in
      let one = length-append t.records (record_of py d t.next_sequence (previous py t) ∷ []) in
      (omega (arith, n, one), g)

module _ {F L : Type 0} (go : Go F L) (py : Python F L) (genesis : String)
    (same_hash : (t : String) → py.sha256_hex t ≡ go.sha256_hex t) where
  -- The verifier hashes what the writer does, in its own texts.
  compute_record_hash-record_of :
      (d : Decision F L) (n : ℕ) (p : String)
      → compute_record_hash go (record_of py d n p)
        ≡ py.sha256_hex (hashed_text (go_texts go) d n p)
  unfolding compute_record_hash payload record_of
  compute_record_hash-record_of d n p = sym (same_hash _)

  -- The writer links each record to what the verifier expects.
  linked :
      (d : Decision F L) (t : ExecutionTrace F L) (p : String)
      → t.next_sequence ≡ length t.records
      → t.genesis_hash ≡ genesis
      → expected_prev go genesis (last_of none t.records) (record_of py d t.next_sequence p)
        ≡ previous py t
  unfolding record_of
  linked d t p n g =
      expected_prev-next go genesis (record_of py d t.next_sequence p) t.next_sequence t.records n
        refl
      ∙ ap (λ x. if t.next_sequence == 0 then x else last_hash x t.records) (sym g)

  check-record_of :
      (d : Decision F L) (t : ExecutionTrace F L)
      → t.next_sequence ≡ length t.records
      → t.genesis_hash ≡ genesis
      → check go genesis (last_of none t.records) (record_of py d t.next_sequence (previous py t))
        ≡ guard
            (py.sha256_hex (hashed_text py.texts d t.next_sequence (previous py t))
              =s= py.sha256_hex (hashed_text (go_texts go) d t.next_sequence (previous py t)))
            (hash_mismatch (pos t.next_sequence))
  unfolding record_of
  check-record_of d t n g =
      rw
        (
          linked d t (previous py t) n g,
          compute_record_hash-record_of d t.next_sequence (previous py t),
        )
        (rw (str_eq_refl (previous py t)) refl)

  verify_records-trace_of :
      (ds : List (Decision F L))
      → verify_records go genesis none (trace_of py genesis ds).records
        ≡ verdict py (go_texts go) genesis ds
  unfolding trace_of record_decision verdict new_execution_trace verify_records
  verify_records-trace_of [] = refl
  verify_records-trace_of (d ∷ ds) =
      let t = trace_of py genesis ds in
      let (n, g) = trace_of-counts py genesis ds in
      verify_records-last go genesis none t.records (record_of py d t.next_sequence (previous py t))
      ∙ ap
          (λ k.
            k
            >> check go genesis (last_of none t.records)
                (record_of py d t.next_sequence (previous py t)))
          (verify_records-trace_of ds)
      ∙ ap (λ k. verdict py (go_texts go) genesis ds >> k) (check-record_of d t n g)

  sorted_batch :
      (rs : List (TraceRecord F L)) (tv : TraceVerifier F L)
      → go.sort_records rs ≡ rs
      → verify_batch go rs tv ≡ verify_records go tv.genesis_hash none rs
  unfolding verify_batch verify_records
  sorted_batch [] tv e = refl
  sorted_batch (r ∷ rs) tv e = ap (verify_records go tv.genesis_hash none) e

  -- Where Python and Go agree on SHA-256, and the sort leaves the trace as it is, verifyBatch with the
  -- writer's genesis hash accepts the whole trace that the writer makes of any decisions, unless for
  -- some decision the text that the writer hashes has another hash than the same text in Go's forms of
  -- the number, the time and the JSON; it then gives a hash mismatch at the first such decision. No
  -- check of the links fails.
  pub verify_batch-trace_of :
      (ds : List (Decision F L)) (tv : TraceVerifier F L)
      → tv.genesis_hash ≡ genesis
      → go.sort_records (trace_of py genesis ds).records ≡ (trace_of py genesis ds).records
      → verify_batch go (trace_of py genesis ds).records tv ≡ verdict py (go_texts go) genesis ds
  verify_batch-trace_of ds tv g sorted =
      sorted_batch (trace_of py genesis ds).records tv sorted
      ∙ ap (λ x. verify_records go x none (trace_of py genesis ds).records) g
      ∙ verify_records-trace_of ds
