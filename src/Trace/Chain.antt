-- ===== src/Trace/Chain.antt =====
-- What a verified batch of pkg/telemetry/trace_verifier.go guarantees: the hash of its last record fixes
-- the hashed text of every record.
use Prim.Native.String.{count}
use mathlib.Core.List.{Mem, mem-cons_self, mem-cons_of_mem}
use vikram.Base.{
  ℕ, String, ◌≡◌, refl, sym, ap, ◌∙◌, Bool, true, false, ◌&&◌, List, [], ◌∷◌, map, Option, none,
  some, ◌=s=◌, Bool-cases, str_eq_iff, ◌⊎◌, inl, inr, ◌≢◌, ne_by_test, arith, not, length, drop,
  if◌then◌else◌,
}
use vikram.Base.Result.{Result, ok, guard, ◌>>◌}
use vikram.Trace.{
  TraceRecord, Go, TraceVerifier, previous_hash_mismatch, hash_mismatch, is_zero_int, payload,
  compute_record_hash, expected_prev, verify_records, verify_batch,
}
use vikram.Trace.Payload.{payload-previous_hash}

two_guards-ok :
    {E : Type 0} (a b : Bool) (e f : E) (k : Result E Unit)
    → (guard a e >> guard b f >> k) ≡ ok tt
    → (a ≡ true) × (b ≡ true) × (k ≡ ok tt)
two_guards-ok true true e f k h = (refl, refl, h)
two_guards-ok true false e f k h = ground arith
two_guards-ok false b e f k h = ground arith

two_guards-true :
    {E : Type 0} {a b : Bool} (e f : E) (k : Result E Unit)
    → a ≡ true
    → b ≡ true
    → (guard a e >> guard b f >> k) ≡ k
two_guards-true {a = true} {b = true} e f k ta tb = refl
two_guards-true {a = true} {b = false} e f k ta tb = ground arith
two_guards-true {a = false} e f k ta tb = ground arith

module _ {F L : Type 0} where
  -- The hash of the last record, `h` when there is none.
  abbrev pub last_hash : String → List (TraceRecord F L) → String
  last_hash h [] = h
  last_hash h (r ∷ rs) = last_hash r.record_hash rs

  -- No sequence number is 0.
  abbrev pub all_later : List (TraceRecord F L) → Bool
  all_later [] = true
  all_later (r ∷ rs) = not (is_zero_int r.sequence_number) && all_later rs

module _ {F L : Type 0} (go : Go F L) where
  -- A text of the one list and another text of the other list with one hash.
  pub Collision : List String → List String → Type 0
  Collision xs ys =
      (x : String) × (y : String) × Mem x xs
      × Mem y ys
      × (x ≢ y)
      × (go.sha256_hex x ≡ go.sha256_hex y)

  later_Collision :
      (x y : String) (xs ys : List String) → Collision xs ys → Collision (x ∷ xs) (y ∷ ys)
  unfolding Collision
  later_Collision x y xs ys (a, b, ma, mb, other, e) =
      (a, b, mem-cons_of_mem x ma, mem-cons_of_mem y mb, other, e)

  same_or_collide :
      (x y : String) (xs ys : List String)
      → go.sha256_hex x ≡ go.sha256_hex y
      → (x ≡ y) ⊎ Collision (x ∷ xs) (y ∷ ys)
  unfolding Collision
  same_or_collide x y xs ys e = elim (Bool-cases (x =s= y)) [
    | inl t ↦ inl ((str_eq_iff x y).0 t)
    | inr f ↦ inr (x, y, mem-cons_self, mem-cons_self, ne_by_test x y f, e)
  ]

module _ {F L : Type 0} (go : Go F L) (genesis : String) where
  pub verify_records-ok :
      (before : Option (TraceRecord F L)) (r : TraceRecord F L) (rs : List (TraceRecord F L))
      → verify_records go genesis before (r ∷ rs) ≡ ok tt
      → (r.previous_hash ≡ expected_prev go genesis before r)
        × (r.record_hash ≡ go.sha256_hex (payload go r))
        × (verify_records go genesis (some r) rs ≡ ok tt)
  unfolding verify_records
  verify_records-ok before r rs h =
      let (linked, hashed, rest) =
        two_guards-ok (r.previous_hash =s= expected_prev go genesis before r)
          (r.record_hash =s= compute_record_hash go r) (previous_hash_mismatch r.sequence_number)
          (hash_mismatch r.sequence_number) (verify_records go genesis (some r) rs) h in
      ((str_eq_iff _ _).0 linked, (str_eq_iff _ _).0 hashed, rest)

  pub verify_records-step :
      (before : Option (TraceRecord F L)) (r : TraceRecord F L) (rs : List (TraceRecord F L))
      → r.previous_hash ≡ expected_prev go genesis before r
      → r.record_hash ≡ compute_record_hash go r
      → verify_records go genesis before (r ∷ rs) ≡ verify_records go genesis (some r) rs
  unfolding verify_records
  verify_records-step before r rs linked hashed =
      two_guards-true (previous_hash_mismatch r.sequence_number) (hash_mismatch r.sequence_number)
        (verify_records go genesis (some r) rs) ((str_eq_iff _ _).1 linked)
        ((str_eq_iff _ _).1 hashed)

  pub expected_prev-later :
      (b r : TraceRecord F L)
      → is_zero_int r.sequence_number ≡ false
      → expected_prev go genesis (some b) r ≡ b.record_hash
  unfolding expected_prev
  expected_prev-later b r h = ap (λ z. if z then genesis else b.record_hash) h

  pub later_both :
      (r : TraceRecord F L) (rs : List (TraceRecord F L))
      → all_later (r ∷ rs) ≡ true
      → (is_zero_int r.sequence_number ≡ false) × (all_later rs ≡ true)
  later_both r rs h = ground arith

  module _ (digest : ℕ) (of_digest : (t : String) → count (go.sha256_hex t) ≡ digest) where
    abbrev texts : List (TraceRecord F L) → List String
    texts rs = map (payload go) rs

    abbrev Agree :
        TraceRecord F L → TraceRecord F L → List (TraceRecord F L) → List (TraceRecord F L) → Type 0
    Agree b c rs ss = (map (payload go) rs ≡ map (payload go) ss) × (b.record_hash ≡ c.record_hash)

    -- A step back: the hashes of two later records agree, so do their texts and the hashes before them.
    step_back :
        (b c r s : TraceRecord F L)
        → is_zero_int r.sequence_number ≡ false
        → is_zero_int s.sequence_number ≡ false
        → r.previous_hash ≡ expected_prev go genesis (some b) r
        → s.previous_hash ≡ expected_prev go genesis (some c) s
        → count b.record_hash ≡ count c.record_hash
        → payload go r ≡ payload go s
        → b.record_hash ≡ c.record_hash
    step_back b c r s hr hs pr ps n e =
        let at_r = pr ∙ expected_prev-later b r hr in
        let at_s = ps ∙ expected_prev-later c s hs in
        sym at_r ∙ payload-previous_hash go r s e (ap count at_r ∙ n ∙ sym (ap count at_s)) ∙ at_s

    hash-ok :
        (r : TraceRecord F L)
        → r.record_hash ≡ go.sha256_hex (payload go r)
        → count r.record_hash ≡ digest
    hash-ok r h = ap count h ∙ of_digest _

    tails-Agree :
        (b c : TraceRecord F L) (rs ss : List (TraceRecord F L))
        → count b.record_hash ≡ digest
        → count c.record_hash ≡ digest
        → all_later rs ≡ true
        → all_later ss ≡ true
        → length rs ≡ length ss
        → verify_records go genesis (some b) rs ≡ ok tt
        → verify_records go genesis (some c) ss ≡ ok tt
        → last_hash b.record_hash rs ≡ last_hash c.record_hash ss
        → Agree b c rs ss ⊎ Collision go (texts rs) (texts ss)
    tails-Agree b c [] [] nb nc lr ls len vr vs e = inl (refl, e)
    tails-Agree b c (r ∷ rs) (s ∷ ss) nb nc lr ls len vr vs e =
        let (zr, lr') = later_both r rs lr in
        let (zs, ls') = later_both s ss ls in
        let (pr, hr, vr') = verify_records-ok (some b) r rs vr in
        let (ps, hs, vs') = verify_records-ok (some c) s ss vs in
        let len' : length rs ≡ length ss = omega arith in
        elim (tails-Agree r s rs ss (hash-ok r hr) (hash-ok s hs) lr' ls' len' vr' vs' e) [
          | inr found ↦ inr (later_Collision go _ _ (texts rs) (texts ss) found)
          | inl (same, hashes) ↦
              elim (same_or_collide go (payload go r) (payload go s) (texts rs) (texts ss)
                (sym hr ∙ hashes ∙ hs)) [
                  | inr found ↦ inr found
                  | inl texts ↦ inl (cc, step_back b c r s zr zs pr ps (nb ∙ sym nc) texts)
                ]
        ]
    tails-Agree b c [] (s ∷ ss) nb nc lr ls len vr vs e = ground arith
    tails-Agree b c (r ∷ rs) [] nb nc lr ls len vr vs e = ground arith

    batches_agree :
        (rs ss : List (TraceRecord F L))
        → verify_records go genesis none rs ≡ ok tt
        → verify_records go genesis none ss ≡ ok tt
        → all_later (drop 1 rs) ≡ true
        → all_later (drop 1 ss) ≡ true
        → length rs ≡ length ss
        → last_hash "" rs ≡ last_hash "" ss
        → (texts rs ≡ texts ss) ⊎ Collision go (texts rs) (texts ss)
    batches_agree [] [] vr vs lr ls len e = inl refl
    batches_agree [] (s ∷ ss) vr vs lr ls len e = ground arith
    batches_agree (r ∷ rs) [] vr vs lr ls len e = ground arith
    batches_agree (r ∷ rs) (s ∷ ss) vr vs lr ls len e =
        let (_, hr, vr') = verify_records-ok none r rs vr in
        let (_, hs, vs') = verify_records-ok none s ss vs in
        let len' : length rs ≡ length ss = omega arith in
        elim (tails-Agree r s rs ss (hash-ok r hr) (hash-ok s hs) lr ls len' vr' vs' e) [
          | inr found ↦ inr (later_Collision go _ _ (texts rs) (texts ss) found)
          | inl (same, hashes) ↦
              elim (same_or_collide go (payload go r) (payload go s) (texts rs) (texts ss)
                (sym hr ∙ hashes ∙ hs)) [ inr found ↦ inr found | inl texts ↦ inl cc ]
        ]

module _ {F L : Type 0} (go : Go F L) where
  -- Of two verified non-empty batches of one length whose last records have the same hash, no record after the
  -- first with sequence number 0, the records' hashed texts are the same one by one, or a text of the
  -- one batch and a different text of the other have one SHA-256 hash; all hashes have one length.
  pub verify_batch-fixes_texts :
      (digest : ℕ) (of_digest : (t : String) → count (go.sha256_hex t) ≡ digest)
      (r s : TraceRecord F L) (rs ss : List (TraceRecord F L)) (tv : TraceVerifier F L)
      → verify_batch go (r ∷ rs) tv ≡ ok tt
      → verify_batch go (s ∷ ss) tv ≡ ok tt
      → all_later (drop 1 (go.sort_records (r ∷ rs))) ≡ true
      → all_later (drop 1 (go.sort_records (s ∷ ss))) ≡ true
      → length (go.sort_records (r ∷ rs)) ≡ length (go.sort_records (s ∷ ss))
      → last_hash "" (go.sort_records (r ∷ rs)) ≡ last_hash "" (go.sort_records (s ∷ ss))
      → (map (payload go) (go.sort_records (r ∷ rs)) ≡ map (payload go) (go.sort_records (s ∷ ss)))
        ⊎ Collision go
            (map (payload go) (go.sort_records (r ∷ rs)))
            (map (payload go) (go.sort_records (s ∷ ss)))
  unfolding verify_batch
  verify_batch-fixes_texts digest of_digest r s rs ss tv =
      batches_agree go tv.genesis_hash digest of_digest (go.sort_records (r ∷ rs))
        (go.sort_records (s ∷ ss))
