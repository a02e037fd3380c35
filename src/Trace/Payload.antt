-- ===== src/Trace/Payload.antt =====
-- The text that pkg/telemetry/trace_verifier.go hashes for a record: its fields, joined by "||".
use Prim.Native.String.{◌++◌ as text_append, count}
use text.Mathlib.TextLemmas.{nil-append, append_assoc, length-append, append_inj}
use vikram.Base.{String, ◌≡◌, refl, sym, ap, ◌∙◌, List, [], ◌∷◌, ◌++◌, arith}
use vikram.Trace.Canonical.{canonical_json}
use vikram.Trace.{TraceRecord, Go, join, payload, format_timestamp, compute_record_hash}

-- The last field is the end of the text.
join-last :
    (ps : List String) (a : String)
    → (front : String) × (join (ps ++ (a ∷ [])) ≡ text_append front a)
unfolding join
join-last [] a = ("", sym (nil-append a))
join-last (p ∷ []) a = (text_append p "||", sym (append_assoc p "||" a))
join-last (p ∷ q ∷ ps) a =
    let (front, e) = join-last (q ∷ ps) a in
    (
      text_append p (text_append "||" front),
      ap (λ x. text_append p (text_append "||" x)) e
          ∙ ap (text_append p) (sym (append_assoc "||" front a))
          ∙ sym (append_assoc p (text_append "||" front) a),
    )

same_end : (p q a b : String) → text_append p a ≡ text_append q b → count a ≡ count b → a ≡ b
same_end p q a b e same =
    let at_p = length-append p a in
    let at_q = length-append q b in
    let whole = ap count e in
    let fronts : count p ≡ count q = omega arith in (append_inj e fronts).1

shifted :
    (t d e rest : String)
    → text_append (text_append t (text_append "||" d)) (text_append "||" (text_append e rest))
      ≡ text_append t (text_append "||" (text_append (text_append d (text_append "||" e)) rest))
shifted t d e rest = simp (append_assoc)

module _ {F L : Type 0} (go : Go F L) where
  fields : TraceRecord F L → List String
  fields r =
      go.sprintf_d r.sequence_number
      ∷ r.task_id
      ∷ r.decision_type
      ∷ format_timestamp go r.timestamp
      ∷ canonical_json go.quote go.marshal go.sort_strings r.state_snapshot
      ∷ r.policy_evaluated
      ∷ r.outcome
      ∷ canonical_json go.quote go.marshal go.sort_strings r.non_deterministic_inputs
      ∷ []

  payload-fields : (r : TraceRecord F L) → payload go r ≡ join (fields r ++ (r.previous_hash ∷ []))
  unfolding payload fields
  payload-fields r = refl

  -- Equal texts have equal previous hashes, where these have one length.
  pub payload-previous_hash :
      (r s : TraceRecord F L)
      → payload go r ≡ payload go s
      → count r.previous_hash ≡ count s.previous_hash
      → r.previous_hash ≡ s.previous_hash
  payload-previous_hash r s e same =
      let (p, at_r) = join-last (fields r) r.previous_hash in
      let (q, at_s) = join-last (fields s) s.previous_hash in
      same_end p q r.previous_hash s.previous_hash
        (sym at_r ∙ sym (payload-fields r) ∙ e ∙ payload-fields s ∙ at_s) same

  -- A record whose task id ends in "||" and a text has the hash of the record that has this text at the
  -- start of its decision type instead: the separator is not escaped.
  pub hash-shifted :
      (r : TraceRecord F L) (task decision rest : String)
      → compute_record_hash go (record r {
        task_id = text_append task (text_append "||" decision);
        decision_type = rest;
      })
        ≡ compute_record_hash go (record r {
          task_id = task;
          decision_type = text_append decision (text_append "||" rest);
        })
  unfolding compute_record_hash
  hash-shifted r task decision rest =
      ap (λ x. go.sha256_hex (text_append (go.sprintf_d r.sequence_number) (text_append "||" x)))
        (shifted task decision rest _)
