-- ===== src/Proactive/Daily.antt =====
-- pkg/heartbeat/service.go and pkg/proactive/engine.go: how often a heartbeat starts a routine.
use vikram.Base.{
  ℕ, suc, ◌≤◌, String, Bool, true, false, not, ◌&&◌, ◌||◌, List, [], ◌∷◌, Option, ◌≡◌, refl, sym,
  arith, ◌=s=◌, any, count_if,
}
use vikram.Base.Time.{Time}
use mathlib.Core.List.{Mem, mem-cons, not-mem-nil}
use mathlib.Core.Bool.{Bool-set}
use mathlib.Core.Logic.Or
use vikram.Base.{subst}
use vikram.Proactive.{
  Calendar, Routine, Engine, check_routines, should_trigger, triggered_today, mark_first,
  mark_routine_triggered, save_engine,
}
use vikram.Proactive.Heartbeat.{HeartbeatService, Handler, execute_heartbeat, mark_triggered}

module _ {F : Type 0} where
  -- How many routines have an identifier.
  abbrev pub with_id : String → List (Routine F) → ℕ
  with_id i rs = count_if (λ r. Routine.id r =s= i) rs

  -- A routine with the identifier that was not triggered on the day of `now`.
  abbrev pub left_over : Calendar → Time → String → Routine F → Bool
  left_over cal now i r = r.id =s= i && not (triggered_today cal now r)

same_day :
    {F : Type 0} (cal : Calendar) (now later : Time) (r : Routine F)
    → cal.day later ≡ cal.day now
    → cal.month later ≡ cal.month now
    → triggered_today cal now (record r { last_triggered = later }) ≡ true
unfolding triggered_today
same_day cal now later r d m = ground (arith, d, m)

module _ {F : Type 0} (cal : Calendar) (now later : Time) where
  mark_first-with_id :
      (i k : String) (rs : List (Routine F)) → with_id k (mark_first i later rs) ≡ with_id k rs
  unfolding mark_first
  mark_first-with_id i k [] = refl
  mark_first-with_id i k (r ∷ rs) = ground (arith, mark_first-with_id i k rs)

  none_left :
      (i : String) (rs : List (Routine F)) → with_id i rs ≡ 0 → any (left_over cal now i) rs ≡ false
  none_left i [] h = refl
  none_left i (r ∷ rs) h = ground (arith, none_left i rs)

  -- The first routine with an identifier is marked, and there is no second one.
  mark_first-left :
      (i : String) (rs : List (Routine F))
      → ((r : Routine F) → triggered_today cal now (record r { last_triggered = later }) ≡ true)
      → with_id i rs ≤ 1
      → any (left_over cal now i) (mark_first i later rs) ≡ false
  unfolding mark_first
  mark_first-left i [] same h = refl
  mark_first-left i (r ∷ rs) same h =
      ground (arith, same r, none_left i rs, mark_first-left i rs same)

  mark_first-kept :
      (i k : String) (rs : List (Routine F))
      → ((r : Routine F) → triggered_today cal now (record r { last_triggered = later }) ≡ true)
      → any (left_over cal now k) rs ≡ false
      → any (left_over cal now k) (mark_first i later rs) ≡ false
  unfolding mark_first
  mark_first-kept i k [] same h = refl
  mark_first-kept i k (r ∷ rs) same h = ground (arith, same r, mark_first-kept i k rs same)

  mark_routine-with_id :
      (i k : String) (ok : Bool) (e : Engine F)
      → with_id k (mark_routine_triggered i later ok e).routines ≡ with_id k e.routines
  unfolding mark_routine_triggered save_engine
  mark_routine-with_id i k true e = mark_first-with_id i k e.routines
  mark_routine-with_id i k false e = mark_first-with_id i k e.routines

  marked_routines :
      (i : String) (ok : Bool) (e : Engine F)
      → (mark_routine_triggered i later ok e).routines ≡ mark_first i later e.routines
  unfolding mark_routine_triggered save_engine
  marked_routines i true e = refl
  marked_routines i false e = refl

module _ {F : Type 0} (cal : Calendar) (now : Time) where
  mark_triggered-kept :
      (clock : ℕ → Time) (k : String) (ok : Bool) (due : List (Routine F)) (e : Engine F)
      → ((n : ℕ) (r : Routine F)
          → triggered_today cal now (record r { last_triggered = clock n }) ≡ true)
      → any (left_over cal now k) e.routines ≡ false
      → any (left_over cal now k) (mark_triggered clock ok due e).routines ≡ false
  unfolding mark_triggered
  mark_triggered-kept clock k ok [] e same h = h
  mark_triggered-kept clock k ok (r ∷ due) e same h =
      mark_triggered-kept (λ n. clock (suc n)) k ok due (mark_routine_triggered r.id (clock 0) ok e)
        (λ n. same (suc n))
        (rw (marked_routines cal now (clock 0) r.id ok e)
          (mark_first-kept cal now (clock 0) r.id k e.routines (same 0) h))

  mark_triggered-left :
      (clock : ℕ → Time) (ok : Bool) (q : Routine F) (due : List (Routine F)) (e : Engine F)
      → ((n : ℕ) (r : Routine F)
          → triggered_today cal now (record r { last_triggered = clock n }) ≡ true)
      → ((i : String) → with_id i e.routines ≤ 1)
      → Mem q due
      → any (left_over cal now q.id) (mark_triggered clock ok due e).routines ≡ false
  unfolding mark_triggered
  mark_triggered-left clock ok q [] e same one m = absurd (not-mem-nil m)
  mark_triggered-left clock ok q (r ∷ due) e same one m =
      let next = mark_routine_triggered r.id (clock 0) ok e in
      let rest = λ (n : ℕ). clock (suc n) in
      let marked : any (left_over cal now r.id) next.routines ≡ false =
        rw (marked_routines cal now (clock 0) r.id ok e)
          (mark_first-left cal now (clock 0) r.id e.routines (same 0) (one r.id)) in
      Or.elim (Bool-set _ _) (mem-cons.0 m)
        (λ eq.
          mark_triggered-kept rest q.id ok due next (λ n. same (suc n))
            (subst (λ x. any (left_over cal now (Routine.id x)) next.routines ≡ false) (sym eq)
              marked))
        (λ n.
          mark_triggered-left rest ok q due next (λ n. same (suc n))
            (λ i.
              subst (λ x. x ≤ 1) (sym (mark_routine-with_id cal now (clock 0) r.id i ok e)) (one i))
            n)

check_left :
    {F : Type 0} (cal : Calendar) (now : Time) (i : String) (rs : List (Routine F))
    → any (left_over cal now i) rs ≡ false
    → any (λ r. Routine.id r =s= i) (check_routines cal now rs) ≡ false
unfolding check_routines should_trigger
check_left cal now i [] h = refl
check_left cal now i (r ∷ rs) h = ground (arith, check_left cal now i rs)

-- If no two routines have the same identifier, the routines that one heartbeat of an enabled and
-- running service with a prompt starts are not due again at any time whose day of the month and month
-- are those of the times the routines were marked at, whether or not the engine could be saved.
pub execute_heartbeat-check_routines :
    {F : Type 0} (cal : Calendar) (split : String → Option (String × String)) (s : HeartbeatService)
    (f : Handler) (last prompt : String) (now after : Time) (clock : ℕ → Time) (ok : Bool)
    (e : Engine F) (q : Routine F)
    → (not s.enabled || not s.running || prompt =s= "") ≡ false
    → ((i : String) → with_id i e.routines ≤ 1)
    → ((n : ℕ) → cal.day (clock n) ≡ cal.day after)
    → ((n : ℕ) → cal.month (clock n) ≡ cal.month after)
    → Mem q (check_routines cal now e.routines)
    → any
        (λ r. Routine.id r =s= q.id)
        (check_routines cal after
          (execute_heartbeat cal split s f last prompt now clock ok e).0.routines)
      ≡ false
unfolding execute_heartbeat
execute_heartbeat-check_routines cal split s f last prompt now after clock ok e q runs one day month
      m =
    rw runs (
      check_left cal after q.id _ (
        mark_triggered-left cal after clock ok q (check_routines cal now e.routines) e
          (λ n r. same_day cal after (clock n) r (day n) (month n)) one m))
