-- ===== src/CostLedger.antt =====
-- pkg/costledger/store.go and circuit_breaker.go: the accumulators of costs and the circuit breaker.
-- `F` stands for float64. The answers of the SQLite database are arguments, and so are clock readings. `notified` holds the tasks whose
-- warnings went to the notifier, newest first.
pub mod Window
pub mod Forecast
pub mod Breaker
pub mod Warnings
mod Examples
use vikram.Base.{
  ℕ, zero, suc, ◌+◌, ◌-◌, ◌*◌, ◌/◌, String, Bool, true, false, not, ◌&&◌, ◌||◌, List, [], ◌∷◌,
  Option, none, some, ◌=s=◌, if◌then◌else◌, ltb,
}
use vikram.Base.Int.{ℤ, pos}
use vikram.Base.Map.{Map, lookup, insert, delete}
use vikram.Base.Result.{Result, ok, err}
use vikram.Base.Float.{Float64}
use vikram.Base.Time.{Time, after, before}

pub record CostRecord (F : Type 0) : Type 0 where
  pub task_id : String
  pub work_phase : String
  pub cost_usd : F

pub record CircuitBreakerState (F : Type 0) : Type 0 where
  pub task_budgets : Map F
  pub warning_threshold : F
  pub sent : Map Bool

pub record Ledger (F : Type 0) : Type 0 where
  pub task_totals : Map F
  pub daily_total : ℤ
  pub reset_hour : ℕ
  pub daily_start : Time
  pub cb_state : Option (CircuitBreakerState F)
  pub notified : List String

abbrev pub day : ℕ
day = 86400000000000

abbrev pub hour : ℕ
hour = 3600000000000

-- The zero time is a midnight. On its first day, in the year 1, the start would lie before it.
pub compute_daily_start : ℕ → Time → Time
compute_daily_start reset_hour now =
    let today = now / day * day + reset_hour * hour in
    if before now today then today - day else today

module _ {F : Type 0} (float : Float64 F) where
  -- Dollars in billionths, and back.
  abbrev pub to_nanos : F → ℤ
  to_nanos x = float.trunc (float.mul x (float.decimal 1_000_000_000 0))

  abbrev pub from_nanos : ℤ → F
  from_nanos n = float.div (float.of_int n) (float.decimal 1_000_000_000 0)

  -- The totals that a ledger starts with come from the database.
  pub new_sqlite_ledger : ℕ → Map F → F → Time → Ledger F
  unfolding compute_daily_start
  new_sqlite_ledger reset_hour task_totals daily_total now =
      let h = if ltb 23 reset_hour then 0 else reset_hour in
      record {
        task_totals = task_totals;
        daily_total = to_nanos daily_total;
        reset_hour = h;
        daily_start = compute_daily_start h now;
        cb_state = none;
        notified = [];
      }

  pub rotate_daily_if_needed : Time → Ledger F → Ledger F
  unfolding compute_daily_start
  rotate_daily_if_needed now l =
      let start = compute_daily_start l.reset_hour now in
      if after start l.daily_start then record l { daily_start = start; daily_total = pos 0 } else l

  abbrev pub added : F → Option F → F
  added cost none = cost
  added cost (some current) = float.add current cost

  pub add_to_task_total : String → F → Ledger F → Ledger F
  add_to_task_total task_id cost l = record l {
    task_totals = insert task_id (added cost (lookup task_id l.task_totals)) l.task_totals;
  }

  pub load_daily_total : Ledger F → F
  load_daily_total l = from_nanos l.daily_total

  pub add_to_daily_total : F → Ledger F → Ledger F
  unfolding load_daily_total
  add_to_daily_total cost l = record l {
    daily_total = to_nanos (float.add (load_daily_total l) cost);
  }

  -- `insert_error` is the database's answer to the INSERT.
  pub record_cost : CostRecord F → Option String → Time → Ledger F → Ledger F × Option String
  unfolding rotate_daily_if_needed add_to_task_total add_to_daily_total
  record_cost rec (some e) now l = (rotate_daily_if_needed now l, some e)
  record_cost rec none now l = (
    add_to_daily_total rec.cost_usd
        (add_to_task_total rec.task_id rec.cost_usd (rotate_daily_if_needed now l)),
    none,
  )

  abbrev pub or_zero : Option F → F
  or_zero none = float.decimal 0 0
  or_zero (some x) = x

  pub task_cumulative : String → Ledger F → F
  task_cumulative task_id l = or_zero (lookup task_id l.task_totals)

  pub daily_total : Time → Ledger F → Ledger F × F
  unfolding rotate_daily_if_needed load_daily_total
  daily_total now l = let r = rotate_daily_if_needed now l in (r, load_daily_total r)

  -- `SetCircuitBreakerConfig`, with a store of budgets.
  pub set_circuit_breaker_config : F → Map F → Ledger F → Ledger F
  set_circuit_breaker_config warning_threshold task_budgets l = record l {
    cb_state = some (record {
      task_budgets = task_budgets;
      warning_threshold =
          if float.ge (float.decimal 0 0) warning_threshold
            || float.ge warning_threshold (float.decimal 1 0)
          then float.decimal 8 1
          else warning_threshold;
      sent = [];
    });
  }

abbrev pub or_false : Option Bool → Bool
or_false none = false
or_false (some b) = b

module _ {F : Type 0} where
  -- `Register` and `Update` of the store of budgets.
  pub register : String → F → CircuitBreakerState F → CircuitBreakerState F
  register task_id max_cost_usd cb = record cb {
    task_budgets = insert task_id max_cost_usd cb.task_budgets;
  }

  pub remove : String → CircuitBreakerState F → CircuitBreakerState F
  remove task_id cb = record cb { task_budgets = delete task_id cb.task_budgets }

  pub has_sent : String → CircuitBreakerState F → Bool
  has_sent task_id cb = or_false (lookup task_id cb.sent)

  pub mark_sent : String → Ledger F → Ledger F
  mark_sent task_id l = elim l.cb_state [
    | none ↦ l
    | some cb ↦ record l { cb_state = some (record cb { sent = insert task_id true cb.sent }) }
  ]

  pub notify : String → Ledger F → Ledger F
  notify task_id l = record l { notified = task_id ∷ l.notified }

  pub reset_task_warning : String → Ledger F → Ledger F
  reset_task_warning task_id l = elim l.cb_state [
    | none ↦ l
    | some cb ↦ record l { cb_state = some (record cb { sent = delete task_id cb.sent }) }
  ]

pub data Verdict : Type 0 where
  allowed budget_exceeded daily_ceiling_exceeded : Verdict
  failed : String → Verdict

module _ {F : Type 0} (float : Float64 F) where
  -- The cap of a task, if it has one.
  pub capped : String → CircuitBreakerState F → Option F
  capped task_id cb = elim (lookup task_id cb.task_budgets) [
    | none ↦ none
    | some max ↦ if float.gt max (float.decimal 0 0) then some max else none
  ]

  pub over_budget : F → Option F → Bool
  over_budget cumulative none = false
  over_budget cumulative (some max) = float.ge cumulative max

  pub warns : String → F → Option F → CircuitBreakerState F → Bool
  unfolding has_sent
  warns task_id cumulative none cb = false
  warns task_id cumulative (some max) cb =
      float.ge cumulative (float.mul max cb.warning_threshold) && not (has_sent task_id cb)

  -- The warning of a task, for a check with no other between its steps: the test, Notify, markSent.
  pub warn : String → Option F → CircuitBreakerState F → Ledger F → Ledger F
  unfolding warns task_cumulative notify mark_sent
  warn task_id cap cb l =
      if warns task_id (task_cumulative float task_id l) cap cb
      then mark_sent task_id (notify task_id l)
      else l

  -- `ceiling` is what `getDailyCeiling` reads of the database.
  pub check_ceiling : Result String F → Ledger F → Verdict
  unfolding load_daily_total
  check_ceiling (err e) l = failed e
  check_ceiling (ok ceiling) l =
      if float.gt ceiling (float.decimal 0 0) && float.ge (load_daily_total float l) ceiling
      then daily_ceiling_exceeded
      else allowed

  check_task :
      String → Result String F → Option (CircuitBreakerState F) → Ledger F → Ledger F × Verdict
  unfolding capped over_budget warn check_ceiling
  check_task task_id ceiling none l = (l, allowed)
  check_task task_id ceiling (some cb) l =
      if over_budget (task_cumulative float task_id l) (capped task_id cb)
      then (l, budget_exceeded)
      else let w = warn task_id (capped task_id cb) cb l in (w, check_ceiling ceiling w)

  -- A call with no other check of the task between its steps.
  pub check_circuit_breaker : String → Result String F → Time → Ledger F → Ledger F × Verdict
  unfolding check_task rotate_daily_if_needed
  check_circuit_breaker task_id ceiling now l =
      let r = rotate_daily_if_needed float now l in check_task task_id ceiling r.cb_state r
