-- ===== src/Trace/Ticks.antt =====
-- The periodic check of pkg/telemetry/trace_verifier.go (verifyNext), over all answers of the fetcher.
use vikram.Base.{
  ℕ, ◌+◌, ◌*◌, String, ◌≡◌, refl, not, List, [], ◌∷◌, ltb, ◌==◌, arith, Option, none, some, ◌||◌,
  subst, sym, if◌then◌else◌,
}
use vikram.Base.Result.{Result, ok, err}
use vikram.Base.Time.{Time}
use vikram.Trace.{
  TraceRecord, Go, TraceVerifier, VerifyError, verify_batch, verify_next, settle_batch,
}

-- What the fetcher answers at a tick.
pub record Tick (F L : Type 0) : Type 0 where
  pub total : Result String ℕ
  pub records : Result String (List (TraceRecord F L))
  pub now : Time

module _ {F L : Type 0} (go : Go F L) where
  -- The latest tick comes first.
  abbrev pub after_ticks : TraceVerifier F L → List (Tick F L) → TraceVerifier F L
  after_ticks tv [] = tv
  after_ticks tv (t ∷ ts) = verify_next go t.total t.records t.now (after_ticks tv ts)

  -- The check that a tick makes: none when an answer is an error or there is no full batch.
  pub check_of :
      Result String ℕ
      → Result String (List (TraceRecord F L))
      → TraceVerifier F L
      → Option (Result VerifyError Unit)
  check_of (ok total) (ok records) tv =
      if ltb total (tv.next_seq + tv.batch_size) then none else some (verify_batch go records tv)
  check_of _ _ tv = none

  abbrev passes : Option (Result VerifyError Unit) → ℕ
  passes (some (ok _)) = 1
  passes _ = 0

  abbrev failures : Option (Result VerifyError Unit) → ℕ
  failures (some (err _)) = 1
  failures _ = 0

  pub passed : TraceVerifier F L → List (Tick F L) → ℕ
  passed tv [] = 0
  passed tv (t ∷ ts) = passes (check_of t.total t.records (after_ticks tv ts)) + passed tv ts

  pub failed : TraceVerifier F L → List (Tick F L) → ℕ
  failed tv [] = 0
  failed tv (t ∷ ts) = failures (check_of t.total t.records (after_ticks tv ts)) + failed tv ts

  verify_next-check_of :
      (total : Result String ℕ) (records : Result String (List (TraceRecord F L))) (now : Time)
      (tv : TraceVerifier F L)
      → verify_next go total records now tv ≡ elim (check_of total records tv) [
        | none ↦ tv
        | some outcome ↦ settle_batch outcome now tv
      ]
  unfolding verify_next check_of
  verify_next-check_of (err e) records now tv = refl
  verify_next-check_of (ok total) (err e) now tv = refl
  verify_next-check_of (ok total) (ok records) now tv = ground arith

  abbrev Counted : ℕ → ℕ → TraceVerifier F L → TraceVerifier F L → Type 0
  Counted p f tv after =
      (after.next_seq ≡ tv.next_seq + p * tv.batch_size)
      × (after.alerts ≡ tv.alerts + f)
      × (after.batch_size ≡ tv.batch_size)
      × (after.violation_detected ≡ (tv.violation_detected || not (f == 0)))

  settle_batch-Counted :
      (p f : ℕ) (outcome : Option (Result VerifyError Unit)) (now : Time)
      (tv after : TraceVerifier F L)
      → Counted p f tv after
      → Counted
          (passes outcome + p)
          (failures outcome + f)
          tv
          (elim outcome [ none ↦ after | some o ↦ settle_batch o now after ])
  unfolding settle_batch
  settle_batch-Counted p f none now tv after (n, a, b, v) =
      (omega arith, omega arith, b, ground arith)
  settle_batch-Counted p f (some (ok u)) now tv after (n, a, b, v) =
      (omega arith, omega arith, b, ground arith)
  settle_batch-Counted p f (some (err e)) now tv after (n, a, b, v) =
      (omega arith, omega arith, b, ground arith)

  -- From any verifier and after any ticks, whatever the fetcher answered: the verified range has grown
  -- by one batch for each check that passed, one alert was sent for each check that failed, and the
  -- violation flag is set exactly when it was set before or a check has failed. Ticks with a fetcher's
  -- error or without a full batch count for neither.
  pub after_ticks-Counted :
      (tv : TraceVerifier F L) (ts : List (Tick F L))
      → Counted (passed tv ts) (failed tv ts) tv (after_ticks tv ts)
  unfolding passed failed
  after_ticks-Counted tv [] = (omega arith, omega arith, refl, ground arith)
  after_ticks-Counted tv (t ∷ ts) =
      let before = after_ticks tv ts in
      let outcome = check_of t.total t.records before in
      subst (Counted (passes outcome + passed tv ts) (failures outcome + failed tv ts) tv)
        (sym (verify_next-check_of t.total t.records t.now before))
        (settle_batch-Counted (passed tv ts) (failed tv ts) outcome t.now tv before
          (after_ticks-Counted tv ts))
