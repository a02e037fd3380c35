-- ===== src/Session/Examples.antt =====
-- Runs of pkg/session/manager.go: a turn that was cut off between two tool calls, and its history.
use vikram.Base.{ℕ, ◌≡◌, refl, List, [], ◌∷◌, none, String, ◌=s=◌}
use vikram.Base.Int.{pos}
use vikram.Base.Map.{lookup, insert}
use vikram.Providers.{Message, ToolCall}
use vikram.Session.{SessionManager, get_history, truncate_history}
use vikram.Session.Repair.{interrupted, repair_orphaned_tool_calls}
use vikram.Session.Repair.Complete.{Complete, repair_orphaned_tool_calls-Complete}
use vikram.Session.Repair.Unchanged.{Extends, repair_orphaned_tool_calls-Extends}

abbrev call : String → ToolCall ℕ
call id = record { id = id; kind = "function"; function = none; name = "exec"; arguments = none }

abbrev says : String → String → Message ℕ
says role content = record { role = role; content = content; tool_calls = []; tool_call_id = "" }

abbrev asks : Message ℕ
asks = record {
  role = "assistant";
  content = "";
  tool_calls = call "c1" ∷ call "c2" ∷ [];
  tool_call_id = "";
}

abbrev result : String → Message ℕ
result id = record { role = "tool"; content = "ok"; tool_calls = []; tool_call_id = id }

abbrev cut_off : List (Message ℕ)
cut_off = says "user" "go" ∷ asks ∷ result "c1" ∷ []

abbrev whole : List (Message ℕ)
whole = says "user" "go" ∷ asks ∷ result "c1" ∷ result "c2" ∷ []

cut_off_repaired :
    repair_orphaned_tool_calls cut_off
    ≡ says "user" "go" ∷ asks ∷ interrupted "c2" ∷ result "c1" ∷ []
unfolding repair_orphaned_tool_calls ◌=s=◌
cut_off_repaired = refl

repair_orphaned_tool_calls-Complete_example : Complete (repair_orphaned_tool_calls cut_off)
repair_orphaned_tool_calls-Complete_example = repair_orphaned_tool_calls-Complete cut_off

repair_orphaned_tool_calls-Extends_example : Extends cut_off (repair_orphaned_tool_calls cut_off)
repair_orphaned_tool_calls-Extends_example = repair_orphaned_tool_calls-Extends cut_off

whole-Complete : Complete whole
unfolding ◌=s=◌
whole-Complete = (tt, ((refl, (refl, tt)), (tt, (tt, tt))))

abbrev chat : SessionManager ℕ
chat = record {
  sessions =
      ("s", record { key = "s"; messages = whole; summary = ""; created = 1; updated = 1 }) ∷ [];
}

last_two : get_history "s" (truncate_history "s" (pos 2) 5 chat) ≡ result "c1" ∷ result "c2" ∷ []
unfolding get_history truncate_history lookup insert ◌=s=◌
last_two = refl
