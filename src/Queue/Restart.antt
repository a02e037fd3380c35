-- ===== src/Queue/Restart.antt =====
-- pkg/queue/queue.go: a job whose handler takes the process down. `NewQueue` makes it pending again and
-- does not look at its attempts.
use vikram.Base.{
  ℕ, ◌+◌, ◌≤◌, ◌≡◌, refl, ap, ◌∙◌, true, List, [], ◌∷◌, String, arith, str_eq_refl, all, leb,
  length,
}
use vikram.Base.Time.{Time}
use vikram.Queue.{
  Job, pending, running, is_candidate, claim, update, start_attempt, new_queue, reset_status,
  next_pending, register_handler, claim_job, has_handler, first_of_sorted, least, claimed,
}

module _ {P : Type 0} where
  -- One life of the process: it loads the file, registers the kind of handler, takes the next job, and
  -- dies in the handler. The jobs that it leaves in the file:
  pub life : String → Time → ℕ → List (Job P) → List (Job P)
  life kind now next_ref file =
      (claimed (register_handler kind (new_queue file next_ref))
        (claim now (register_handler kind (new_queue file next_ref)))).jobs

  -- Lives after each other, each with its own clock reading and its own first reference.
  pub lives : List (Time × ℕ) → String → List (Job P) → List (Job P)
  unfolding life
  lives [] kind file = file
  lives ((now, next_ref) ∷ rest) kind file = lives rest kind (life kind now next_ref file)

  abbrev run_attempt : Time → Job P → Job P
  unfolding start_attempt
  run_attempt now j = start_attempt now (record j { status = pending })

  life-running :
      (now : Time) (next_ref : ℕ) (j : Job P)
      → j.status ≡ running
      → j.scheduled_at ≤ now
      → life j.kind now next_ref (j ∷ []) ≡ run_attempt now j ∷ []
  unfolding life new_queue register_handler claim next_pending first_of_sorted least claim_job
      has_handler update start_attempt is_candidate run_attempt
  life-running now next_ref j h due = ground (arith, ap reset_status h, str_eq_refl j.kind)

  -- A job that was running, alone in the file, is attempted once in each life of the process that
  -- reads the clock at or after its scheduled time, whatever its retry limit is.
  pub lives_attempts :
      (ns : List (Time × ℕ)) (j : Job P)
      → j.status ≡ running
      → all (λ x. leb j.scheduled_at x.0) ns ≡ true
      → (k : Job P) × (lives ns j.kind (j ∷ []) ≡ k ∷ [])
        × (k.attempts ≡ j.attempts + length ns)
        × (k.max_retries ≡ j.max_retries)
  unfolding lives start_attempt
  lives_attempts [] j h due = (j, refl, ground arith, refl)
  lives_attempts ((now, next_ref) ∷ ns) j h due =
      let (k, e, attempts, limit) =
        lives_attempts ns (run_attempt now j) refl (ground (arith, due)) in
      (
        k,
        ap (lives ns j.kind) (life-running now next_ref j h (ground (arith, due))) ∙ e,
        attempts ∙ omega arith,
        limit,
      )
