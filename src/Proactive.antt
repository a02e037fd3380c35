-- ===== src/Proactive.antt =====
-- pkg/proactive/engine.go and pkg/heartbeat/service.go: the routines that the agent has learned, and
-- the heartbeat that starts them. A state under a mutex is a record; the file of the engine is what
-- was last saved in it. The calendar (package time, in the local zone) is a parameter, and float64
-- confidences are a parameter type.
pub mod Heartbeat
pub mod Daily
mod Examples
use Prim.Native.String.{◌++◌ as text_append}
use vikram.Base.{
  ℕ, ◌+◌, ◌-◌, String, Bool, true, false, not, ◌&&◌, ◌||◌, List, [], ◌∷◌, ◌++◌, Option, none, some,
  if◌then◌else◌, ◌=s=◌, ◌==◌, any, keep, length, drop, ltb, leb,
}
use vikram.Base.Int.{ℤ, pos, negsuc}
use vikram.Base.Time.{Time, Duration, add, after}

pub record Calendar : Type 0 where
  -- now.Format("15:04"), and the fields of the date
  pub time_of_day : Time → String
  pub weekday : Time → ℕ
  pub day : Time → ℕ
  pub month : Time → ℕ
  pub hour : Time → ℕ

pub record Routine (F : Type 0) : Type 0 where
  pub id : String
  pub name : String
  pub description : String
  pub time_of_day : String
  pub days_of_week : List ℕ
  pub action : String
  pub confidence : F
  pub observations : ℕ
  pub last_triggered : Time
  pub enabled : Bool

pub record Suggestion : Type 0 where
  pub id : String
  pub kind : String
  pub message : String
  pub priority : ℤ
  pub expires_at : Time

pub record ActivityLog : Type 0 where
  pub timestamp : Time
  pub action : String
  pub channel : String
  pub day_of_week : ℕ
  pub hour_of_day : ℕ

pub record Engine (F : Type 0) : Type 0 where
  pub routines : List (Routine F)
  pub activities : List ActivityLog
  pub suggestions : List Suggestion
  pub saved : List (Routine F) × List ActivityLog

abbrev pub on_day : ℕ → List ℕ → Bool
on_day d [] = true
on_day d (x ∷ xs) = any (λ y. y == d) (x ∷ xs)

without_suggestion : String → List Suggestion → List Suggestion
without_suggestion i [] = []
without_suggestion i (s ∷ ss) = if Suggestion.id s =s= i then ss else s ∷ without_suggestion i ss

module _ {F : Type 0} where
  -- `ok` tells whether the write succeeds.
  pub save_engine : Bool → Engine F → Engine F
  save_engine ok e = if ok then record e { saved = (e.routines, e.activities) } else e

  pub record_activity : Calendar → String → String → Time → Bool → Engine F → Engine F
  unfolding save_engine
  record_activity cal action channel now ok e =
      let a : ActivityLog = record {
        timestamp = now;
        action = action;
        channel = channel;
        day_of_week = cal.weekday now;
        hour_of_day = cal.hour now;
      } in
      let grown = e.activities ++ a ∷ [] in
      save_engine ok (record e {
        activities = if ltb 1000 (length grown) then drop (length grown - 1000) grown else grown;
      })

  -- `fresh` is the identifier made from the clock. The identifier is returned.
  pub add_routine : String → Routine F → Bool → Engine F → Engine F × String
  unfolding save_engine ◌=s=◌
  add_routine fresh routine ok e =
      let i = if routine.id =s= "" then fresh else routine.id in
      (
        save_engine ok
            (record e { routines = e.routines ++ record routine { id = i; enabled = true } ∷ [] }),
        i,
      )

  pub without_first : String → List (Routine F) → List (Routine F)
  unfolding ◌=s=◌
  without_first i [] = []
  without_first i (r ∷ rs) = if Routine.id r =s= i then rs else r ∷ without_first i rs

  pub remove_routine : String → Bool → Engine F → Engine F × Bool
  unfolding without_first save_engine
  remove_routine i ok e =
      if any (λ r. Routine.id r =s= i) e.routines
      then (save_engine ok (record e { routines = without_first i e.routines }), true)
      else (e, false)

  pub triggered_today : Calendar → Time → Routine F → Bool
  triggered_today cal now r =
      cal.day r.last_triggered == cal.day now && cal.month r.last_triggered == cal.month now

  pub should_trigger : Calendar → Time → Routine F → Bool
  unfolding triggered_today ◌=s=◌
  should_trigger cal now r =
      r.enabled
      && r.time_of_day =s= cal.time_of_day now
      && not (triggered_today cal now r)
      && on_day (cal.weekday now) r.days_of_week

  pub check_routines : Calendar → Time → List (Routine F) → List (Routine F)
  unfolding should_trigger
  check_routines cal now rs = keep (should_trigger cal now) rs

  pub mark_first : String → Time → List (Routine F) → List (Routine F)
  unfolding ◌=s=◌
  mark_first i now [] = []
  mark_first i now (r ∷ rs) =
      if Routine.id r =s= i then record r { last_triggered = now } ∷ rs else r ∷ mark_first i now rs

  pub mark_routine_triggered : String → Time → Bool → Engine F → Engine F
  unfolding mark_first save_engine
  mark_routine_triggered i now ok e =
      save_engine ok (record e { routines = mark_first i now e.routines })

  -- `made` is the identifier made from the clock.
  pub suggest : String → String → String → ℤ → Duration → Time → Engine F → Engine F
  suggest made kind message priority expires_in now e =
      let s : Suggestion = record {
        id = made;
        kind = kind;
        message = message;
        priority = priority;
        expires_at = add now expires_in;
      } in
      record e { suggestions = e.suggestions ++ s ∷ [] }

  pub pending_suggestions : Time → Engine F → List Suggestion
  pending_suggestions now e = keep (λ s. after (Suggestion.expires_at s) now) e.suggestions

  pub dismiss_suggestion : String → Engine F → Engine F
  unfolding without_suggestion
  dismiss_suggestion i e = record e { suggestions = without_suggestion i e.suggestions }
