-- ===== src/CostLedger/Forecast.antt =====
-- pkg/costledger/forecast.go, pricing.go and the phase budgets of store.go. `floor` and `ceil` are the
-- math package's, as indices, and `sort` is sort.Float64s; the answers of SQLite are arguments. An index
-- out of range, where Go panics, gives zero.
use Prim.Native.String.{◌++◌ as text_append}
use vikram.Base.{
  ℕ, zero, suc, ◌-◌, String, List, [], ◌∷◌, Option, none, some, ◌=s=◌, ◌==◌, if◌then◌else◌, length,
}
use vikram.Base.Int.{ℤ, pos, ltb_ℤ}
use vikram.Base.Map.{Map, lookup}
use vikram.Base.Result.{Result, ok, err}
use vikram.Base.Float.{Float64}
use vikram.CostLedger.{Ledger, task_cumulative}

pub record CostForecast (F : Type 0) : Type 0 where
  pub min_cost_usd : F
  pub expected_cost_usd : F
  pub max_cost_usd : F
  pub confidence_level : F
  pub basis_task_count : ℕ

pub record Heuristic (F : Type 0) : Type 0 where
  pub base_cost_per_file : F
  pub min_multiplier : F
  pub max_multiplier : F

pub record BudgetStrategy (F : Type 0) : Type 0 where
  pub planning : F
  pub implementation : F
  pub verification : F
  pub review : F

pub record ModelPricing (F : Type 0) : Type 0 where
  pub provider : String
  pub model : String
  pub input_per_token : F
  pub output_per_token : F

pub pricing_key : String → String → String
pricing_key provider model = text_append provider (text_append "/" model)

module _ {F : Type 0} where
  pub lookup_pricing : Map (ModelPricing F) → String → String → Option (ModelPricing F)
  unfolding pricing_key
  lookup_pricing table provider model = lookup (pricing_key provider model) table

  -- The zero value stands out of range.
  abbrev pub at : F → List F → ℕ → F
  at default [] n = default
  at default (x ∷ xs) zero = x
  at default (x ∷ xs) (suc n) = at default xs n

  pub phase_percentage : F → BudgetStrategy F → String → F
  phase_percentage none_given strategy phase =
      if phase =s= "planning"
      then strategy.planning
      else if phase =s= "implementation"
      then strategy.implementation
      else if phase =s= "verification"
      then strategy.verification
      else if phase =s= "review"
      then strategy.review
      else none_given

module _ {F : Type 0} (float : Float64 F) (floor ceil : F → ℕ) (sort : List F → List F) where
  abbrev number : ℕ → F
  number n = float.decimal n 0

  pub compute_cost_with_pricing : ModelPricing F → ℤ → ℤ → F
  compute_cost_with_pricing pricing input_tokens output_tokens =
      float.add (float.mul (float.of_int input_tokens) pricing.input_per_token)
        (float.mul (float.of_int output_tokens) pricing.output_per_token)

  pub compute_cost : Map (ModelPricing F) → String → String → ℤ → ℤ → Option F
  unfolding lookup_pricing compute_cost_with_pricing
  compute_cost table provider model input_tokens output_tokens =
      elim (lookup_pricing table provider model) [
        | none ↦ none
        | some pricing ↦ some (compute_cost_with_pricing pricing input_tokens output_tokens)
      ]

  abbrev heuristic_of : String → Option (Heuristic F)
  heuristic_of complexity =
      if complexity =s= "routine"
      then some (record {
        base_cost_per_file = float.decimal 1 2;
        min_multiplier = float.decimal 5 1;
        max_multiplier = number 2;
      })
      else if complexity =s= "moderate"
      then some (record {
        base_cost_per_file = float.decimal 5 2;
        min_multiplier = float.decimal 4 1;
        max_multiplier = float.decimal 25 1;
      })
      else if complexity =s= "complex"
      then some (record {
        base_cost_per_file = float.decimal 15 2;
        min_multiplier = float.decimal 3 1;
        max_multiplier = number 3;
      })
      else if complexity =s= "critical"
      then some (record {
        base_cost_per_file = float.decimal 40 2;
        min_multiplier = float.decimal 3 1;
        max_multiplier = number 4;
      })
      else none

  abbrev or_moderate : Option (Heuristic F) → Heuristic F
  or_moderate (some h) = h
  or_moderate none = record {
    base_cost_per_file = float.decimal 5 2;
    min_multiplier = float.decimal 4 1;
    max_multiplier = float.decimal 25 1;
  }

  pub heuristic_forecast : String → ℤ → CostForecast F
  heuristic_forecast complexity target_files =
      let h = or_moderate (heuristic_of complexity) in
      let files = if ltb_ℤ target_files (pos 1) then pos 1 else target_files in
      let expected = float.mul h.base_cost_per_file (float.of_int files) in
      record {
        min_cost_usd = float.mul expected h.min_multiplier;
        expected_cost_usd = expected;
        max_cost_usd = float.mul expected h.max_multiplier;
        confidence_level = number 0;
        basis_task_count = 0;
      }

  pub percentile : List F → F → F
  percentile sorted p =
      let n = length sorted in
      let rank = float.mul p (number (n - 1)) in
      let lower = floor rank in
      let upper = ceil rank in
      let fraction = float.sub rank (number lower) in
      if n == 0
      then number 0
      else if n == 1
      then at (number 0) sorted 0
      else if float.ge (number 0) p
      then at (number 0) sorted 0
      else if float.ge p (number 1)
      then at (number 0) sorted (n - 1)
      else if lower == upper
      then at (number 0) sorted lower
      else float.add (float.mul (at (number 0) sorted lower) (float.sub (number 1) fraction))
          (float.mul (at (number 0) sorted upper) fraction)

  -- `task_costs` is the database's answer for the tier.
  pub forecast : Result String (List F) → String → ℤ → Result String (CostForecast F)
  unfolding heuristic_forecast percentile
  forecast (err e) complexity target_files = err e
  forecast (ok []) complexity target_files = ok (heuristic_forecast complexity target_files)
  forecast (ok (c ∷ cs)) complexity target_files =
      let sorted = sort (c ∷ cs) in
      let confidence = float.div (number (length sorted)) (number 20) in
      ok (record {
        min_cost_usd = percentile sorted (float.decimal 10 2);
        expected_cost_usd = percentile sorted (float.decimal 50 2);
        max_cost_usd = percentile sorted (float.decimal 90 2);
        confidence_level = if float.gt confidence (number 1) then number 1 else confidence;
        basis_task_count = length sorted;
      })

  unfoldable pub adjusted : F → CostForecast F → CostForecast F
  adjusted actual base =
      let scale = float.div actual base.expected_cost_usd in
      if float.gt actual base.expected_cost_usd
      then record {
        min_cost_usd = actual;
        expected_cost_usd =
            float.mul actual (float.add (number 1) (float.mul (float.decimal 2 1) scale));
        max_cost_usd = float.mul base.max_cost_usd scale;
        confidence_level = float.mul base.confidence_level (float.decimal 8 1);
        basis_task_count = base.basis_task_count;
      }
      else base

  pub update_forecast :
      Result String (List F) → String → String → ℤ → Ledger F → Result String (CostForecast F)
  unfolding forecast adjusted
  update_forecast task_costs task_id complexity target_files l =
      elim (forecast task_costs complexity target_files) [
        | err e ↦ err e
        | ok base ↦ ok (adjusted (task_cumulative float task_id l) base)
      ]

  -- The row of the database, or the standard one.
  pub get_task_budget_strategy :
      Result String (Option (BudgetStrategy F)) → Result String (BudgetStrategy F)
  get_task_budget_strategy (err e) = err e
  get_task_budget_strategy (ok (some strategy)) = ok strategy
  get_task_budget_strategy (ok none) = ok (record {
    planning = number 10;
    implementation = number 60;
    verification = number 20;
    review = number 10;
  })

  abbrev capped_budget : Option F → F
  capped_budget none = number 0
  capped_budget (some budget) = if float.gt budget (number 0) then budget else number 0

  pub get_task_total_budget : String → Ledger F → F
  get_task_total_budget task_id l = elim l.cb_state [
    | none ↦ number 0
    | some cb ↦ capped_budget (lookup task_id cb.task_budgets)
  ]

  abbrev at_least_zero : F → F
  at_least_zero x = if float.gt (number 0) x then number 0 else x

  -- `phase_spend` is the database's answer.
  pub phase_budget_remaining :
      Result String (Option (BudgetStrategy F))
      → Result String F
      → String
      → String
      → Ledger F
      → Result String F
  unfolding get_task_budget_strategy get_task_total_budget phase_percentage
  phase_budget_remaining row phase_spend task_id phase l = elim (get_task_budget_strategy row) [
    | err e ↦ err e
    | ok strategy ↦
        let total = get_task_total_budget task_id l in
        if float.ge (number 0) total then ok (number 0) else elim phase_spend [
          | err e ↦ err e
          | ok spend ↦ ok (
              at_least_zero (
                float.sub
                  (float.mul total
                    (float.div (phase_percentage (number 0) strategy phase) (number 100)))
                  spend))
        ]
  ]
