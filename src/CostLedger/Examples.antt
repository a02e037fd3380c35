-- ===== src/CostLedger/Examples.antt =====
-- Runs of pkg/costledger with thousandths of a dollar as amounts.
use vikram.Base.{◌/◌, ℕ, ◌+◌, ◌*◌, ◌≡◌, ◌↔◌, refl, List, [], ◌∷◌, some, ◌=s=◌}
use vikram.Base.Int.{pos}
use vikram.Base.Map.{lookup}
use vikram.Base.Result.{ok}
use vikram.Base.Float.{thousandths}
use vikram.CostLedger.Forecast.{CostForecast, adjusted}
use vikram.CostLedger.{
  Ledger, CircuitBreakerState, budget_exceeded, check_circuit_breaker, warns, day, hour,
}
use vikram.CostLedger.Breaker.{IsExhausted, check_circuit_breaker-IsExhausted}
use vikram.CostLedger.Warnings.{
  Checks, Op, tests, sends, marks, tested, step, run, count_warnings, run-marks,
}

abbrev breaker : CircuitBreakerState ℕ
breaker = record { task_budgets = ("t", 5000) ∷ []; warning_threshold = 800; sent = [] }

abbrev fresh : Ledger ℕ
fresh = record {
  task_totals = [];
  daily_total = pos 0;
  reset_hour = 6;
  daily_start = 0;
  cb_state = some breaker;
  notified = [];
}

abbrev spent : Ledger ℕ
spent = record fresh { task_totals = ("t", 5200) ∷ [] }

abbrev noon : ℕ
noon = 10 * day + 12 * hour

spent_stops : (check_circuit_breaker thousandths "t" (ok 0) noon spent).1 ≡ budget_exceeded
unfolding check_circuit_breaker lookup ◌=s=◌
spent_stops = refl

check_circuit_breaker-IsExhausted_example :
    ((check_circuit_breaker thousandths "t" (ok 0) noon spent).1 ≡ budget_exceeded)
    ↔ IsExhausted thousandths "t" spent
check_circuit_breaker-IsExhausted_example =
    check_circuit_breaker-IsExhausted thousandths "t" (ok 0) noon spent

abbrev two_checks : Checks ℕ
two_checks = record { ledger = fresh; sending = []; marking = [] }

-- Two checks that both pass the test before either marks the task send its warning twice.
abbrev overlapping : List (Op ℕ)
overlapping = tests "t" 4500 5000 ∷ tests "t" 4500 5000 ∷ sends 0 ∷ sends 0 ∷ []

warned_twice : (run thousandths overlapping two_checks).ledger.notified ≡ "t" ∷ "t" ∷ []
unfolding run step tested warns lookup
warned_twice = refl

abbrev after_one : List (Op ℕ)
after_one = tests "t" 4500 5000 ∷ tests "t" 4500 5000 ∷ sends 0 ∷ []

abbrev later : List (Op ℕ)
later = tests "t" 4600 5000 ∷ sends 0 ∷ sends 0 ∷ marks 0 ∷ tests "t" 4700 5000 ∷ []

run-marks_example :
    count_warnings thousandths "t"
      (run thousandths later (step thousandths (marks 0) (run thousandths after_one two_checks)))
    ≡ count_warnings thousandths "t" (run thousandths after_one two_checks)
unfolding run step tested warns lookup
run-marks_example = run-marks thousandths "t" 0 [] later (run thousandths after_one two_checks) refl

abbrev one_task : CostForecast ℕ
one_task = record {
  min_cost_usd = 1000;
  expected_cost_usd = 1000;
  max_cost_usd = 1000;
  confidence_level = 50;
  basis_task_count = 1;
}

-- A task that costs twice what the only task before it did: $2.80 are expected, at most $2.00.
expected_over_max :
    adjusted thousandths (λ n. n / 1000) (λ n. n / 1000) (λ xs. xs) 2000 one_task ≡ record {
      min_cost_usd = 2000;
      expected_cost_usd = 2800;
      max_cost_usd = 2000;
      confidence_level = 40;
      basis_task_count = 1;
    }
unfolding adjusted
expected_over_max = refl
