-- ===== src/CostLedger/Breaker.antt =====
-- pkg/costledger/circuit_breaker.go: when CheckCircuitBreaker stops a task.
use vikram.Base.{String, true, ◌≡◌, ◌↔◌, refl, sym, ap, ◌∙◌, Option, none, some, arith}
use vikram.Base.Map.{lookup}
use vikram.Base.Result.{Result, ok, err}
use vikram.Base.Time.{Time}
use vikram.Base.Float.{Float64}
use vikram.CostLedger.{
  Ledger, CircuitBreakerState, budget_exceeded, allowed, or_zero, check_circuit_breaker, check_task,
  check_ceiling, capped, over_budget, rotate_daily_if_needed, task_cumulative, warn,
}

module _ {F : Type 0} (float : Float64 F) where
  -- The breaker is configured, the task has a positive cap, and its costs have reached the cap.
  pub record IsExhausted (task_id : String) (l : Ledger F) : Type 0 where
    pub cb : CircuitBreakerState F
    pub max : F
    pub configured : l.cb_state ≡ some cb
    pub registered : lookup task_id cb.task_budgets ≡ some max
    pub positive : float.gt max (float.decimal 0 0) ≡ true
    pub reached : float.ge (task_cumulative float task_id l) max ≡ true

  rotate-cb_state :
      (now : Time) (l : Ledger F) → (rotate_daily_if_needed float now l).cb_state ≡ l.cb_state
  unfolding rotate_daily_if_needed
  rotate-cb_state now l = ground arith

  rotate-task_totals :
      (now : Time) (l : Ledger F) → (rotate_daily_if_needed float now l).task_totals ≡ l.task_totals
  unfolding rotate_daily_if_needed
  rotate-task_totals now l = ground arith

  check_ceiling-budget :
      (ceiling : Result String F) (l : Ledger F)
      → check_ceiling float ceiling l ≡ budget_exceeded
      → ⊥
  unfolding check_ceiling
  check_ceiling-budget (err e) l h = cc h
  check_ceiling-budget (ok c) l h = ground (arith, h)

  over_capped :
      (task_id : String) (c : F) (cb : CircuitBreakerState F)
      → over_budget float c (capped float task_id cb) ≡ true
      → (max : F) × (lookup task_id cb.task_budgets ≡ some max)
        × (float.gt max (float.decimal 0 0) ≡ true)
        × (float.ge c max ≡ true)
  unfolding capped over_budget
  over_capped task_id c cb h = cases (lookup task_id cb.task_budgets) refl
    where
      cases :
          (o : Option F)
          → lookup task_id cb.task_budgets ≡ o
          → (max : F) × (lookup task_id cb.task_budgets ≡ some max)
            × (float.gt max (float.decimal 0 0) ≡ true)
            × (float.ge c max ≡ true)
      cases none e = absurd (ground (arith, e))
      cases (some max) e = (max, e, ground (arith, e), ground (arith, e))

  capped_over :
      (task_id : String) (c max : F) (cb : CircuitBreakerState F)
      → lookup task_id cb.task_budgets ≡ some max
      → float.gt max (float.decimal 0 0) ≡ true
      → float.ge c max ≡ true
      → over_budget float c (capped float task_id cb) ≡ true
  unfolding capped over_budget
  capped_over task_id c max cb e p g = ground (arith, e, p, g)

  check_task-over :
      (task_id : String) (ceiling : Result String F) (cb : CircuitBreakerState F) (l : Ledger F)
      → ((check_task float task_id ceiling (some cb) l).1 ≡ budget_exceeded)
        ↔ (over_budget float (task_cumulative float task_id l) (capped float task_id cb) ≡ true)
  unfolding check_task
  check_task-over task_id ceiling cb l = (
    λ h. ground (
      arith,
      h,
      check_ceiling-budget ceiling (warn float task_id (capped float task_id cb) cb l),
    ),
    λ h. rw h refl,
  )

  rotate-task_cumulative :
      (task_id : String) (now : Time) (l : Ledger F)
      → task_cumulative float task_id (rotate_daily_if_needed float now l)
        ≡ task_cumulative float task_id l
  unfolding task_cumulative
  rotate-task_cumulative task_id now l =
      ap (λ m. or_zero float (lookup task_id m)) (rotate-task_totals now l)

  check_task-none :
      (task_id : String) (ceiling : Result String F) (l : Ledger F)
      → (check_task float task_id ceiling none l).1 ≡ allowed
  unfolding check_task
  check_task-none task_id ceiling l = refl

  -- CheckCircuitBreaker stops a task for its budget exactly if the breaker is configured, the task has
  -- a positive cap, and its costs have reached the cap, whatever the database and the clock say.
  pub check_circuit_breaker-IsExhausted :
      (task_id : String) (ceiling : Result String F) (now : Time) (l : Ledger F)
      → ((check_circuit_breaker float task_id ceiling now l).1 ≡ budget_exceeded)
        ↔ IsExhausted task_id l
  unfolding check_circuit_breaker
  check_circuit_breaker-IsExhausted task_id ceiling now l = cases l.cb_state refl
    where
      r : Ledger F
      r = rotate_daily_if_needed float now l

      cases :
          (o : Option (CircuitBreakerState F))
          → l.cb_state ≡ o
          → ((check_task float task_id ceiling r.cb_state r).1 ≡ budget_exceeded)
            ↔ IsExhausted task_id l
      cases none e = rw (rotate-cb_state now l ∙ e) (
        λ h. absurd (cc (check_task-none task_id ceiling r, h)),
        λ x. absurd (cc (e, x.configured)),
      )
      cases (some cb) e =
          let same = rotate-task_cumulative task_id now l in
          rw (rotate-cb_state now l ∙ e) (
            λ h.
                let (max, registered, positive, reached) =
                  over_capped task_id _ cb ((check_task-over task_id ceiling cb r).0 h) in
                record {
                  cb = cb;
                  max = max;
                  configured = e;
                  registered = registered;
                  positive = positive;
                  reached = rw same at reached;
                },
            λ x.
                let same_cb : x.cb ≡ cb = cc (e, x.configured) in
                (check_task-over task_id ceiling cb r).1 (
                  capped_over task_id _ x.max cb
                    (ap (λ c. lookup task_id c.task_budgets) (sym same_cb) ∙ x.registered)
                    x.positive (rw same x.reached)),
          )
