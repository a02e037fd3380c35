-- ===== src/Proactive/Examples.antt =====
-- One heartbeat of pkg/heartbeat/service.go with a routine of pkg/proactive/engine.go. The calendar
-- counts minutes: every time has the same clock text, and a day has 1440.
use vikram.Base.{
  ℕ, ◌/◌, ◌≤◌, String, true, false, [], ◌∷◌, Option, none, some, ◌≡◌, refl, arith, any, ◌=s=◌,
}
use vikram.Base.Int.{pos}
use vikram.Proactive.{
  Calendar, Routine, Engine, mark_routine_triggered, check_routines, should_trigger,
  triggered_today,
}
use vikram.Proactive.Heartbeat.{
  HeartbeatService, Handler, execute_heartbeat, handled, mark_triggered,
}
use vikram.Proactive.Daily.{with_id, execute_heartbeat-check_routines}
use mathlib.Core.List.{mem-cons_self}

abbrev calendar : Calendar
calendar = record {
  time_of_day = λ t. "09:00";
  weekday = λ t. 1;
  day = λ t. t / 1_440;
  month = λ t. 5;
  hour = λ t. 9;
}

abbrev routine : Routine ℕ
routine = record {
  id = "r1";
  name = "News";
  description = "";
  time_of_day = "09:00";
  days_of_week = [];
  action = "read the news";
  confidence = 1;
  observations = 3;
  last_triggered = 0;
  enabled = true;
}

abbrev engine : Engine ℕ
engine = record { routines = routine ∷ []; activities = []; suggestions = []; saved = ([], []) }

abbrev service : HeartbeatService
service = record { enabled = true; running = true; has_bus = true; interval = pos 30 }

-- The channel "telegram:7".
abbrev split : String → Option (String × String)
split s = some ("telegram", "7")

abbrev handler : Handler
handler = some (λ prompt channel chat.
    some
      (record { for_llm = "done"; for_user = ""; silent = false; is_error = false; async = false }))

one_id : (i : String) → with_id i engine.routines ≤ 1
one_id i = ground arith

execute_heartbeat-check_routines_example :
    any
      (λ r. Routine.id r =s= "r1")
      (check_routines calendar 1_550
        (execute_heartbeat calendar split service handler "telegram:7" "check" 1_500
          (λ n. 1_501)
          false
          engine).0.routines)
    ≡ false
unfolding ◌=s=◌ check_routines should_trigger triggered_today
execute_heartbeat-check_routines_example =
    execute_heartbeat-check_routines calendar split service handler "telegram:7" "check" 1_500 1_550
      (λ n. 1_501) false engine routine refl one_id (λ n. refl) (λ n. refl) mem-cons_self

-- Without a handler nothing is sent, but the routine counts as triggered.
lost :
    (execute_heartbeat calendar split service none "telegram:7" "check" 1_500
      (λ n. 1_501)
      true
      engine)
    ≡ (
      record engine {
        routines = record routine { last_triggered = 1_501 } ∷ [];
        saved = (record routine { last_triggered = 1_501 } ∷ [], []);
      },
      none,
    )
unfolding execute_heartbeat handled mark_triggered mark_routine_triggered check_routines
    should_trigger triggered_today ◌=s=◌
lost = refl
