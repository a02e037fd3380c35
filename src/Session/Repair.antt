-- ===== src/Session/Repair.antt =====
-- pkg/session/manager.go, repairOrphanedToolCalls: a transcript in which a tool call was never
-- answered gets a made-up answer, so that a provider accepts it. The set of answered ids is a list.
pub mod Complete
pub mod Unchanged
use vikram.Base.{
  String, Bool, true, false, not, ◌&&◌, ◌||◌, List, [], ◌∷◌, ◌++◌, ◌=s=◌, if◌then◌else◌, any,
}
use vikram.Providers.{Message, ToolCall}

pub contains : String → List String → Bool
contains id [] = false
contains id (x ∷ xs) = (x =s= id) || contains id xs

module _ {V : Type 0} where
  -- A tool result for the call `id`.
  abbrev pub is_result : String → Message V → Bool
  is_result id m = (m.role =s= "tool") && (m.tool_call_id =s= id)

  -- The first pass: the ids of all tool results in the transcript.
  pub satisfied_ids : List (Message V) → List String
  satisfied_ids [] = []
  satisfied_ids (m ∷ ms) =
      if (m.role =s= "tool") && not (m.tool_call_id =s= "")
      then m.tool_call_id ∷ satisfied_ids ms
      else satisfied_ids ms

  -- The search among the messages that follow, up to the next assistant message.
  pub found_ahead : String → List (Message V) → Bool
  found_ahead id [] = false
  found_ahead id (m ∷ ms) =
      if is_result id m then true else if m.role =s= "assistant" then false else found_ahead id ms

  abbrev pub interrupted : String → Message V
  interrupted id = record {
    role = "tool";
    content = "[Tool call was interrupted — no result was recorded]";
    tool_calls = [];
    tool_call_id = id;
  }

  -- The loop over the calls of one assistant message: the answers made up, and the ids answered.
  pub answer_calls :
      List (ToolCall V) → List (Message V) → List String → List (Message V) × List String
  unfolding contains found_ahead
  answer_calls [] future satisfied = ([], satisfied)
  answer_calls (tc ∷ tcs) future satisfied =
      let skip = contains tc.id satisfied || found_ahead tc.id future in
      let rest = answer_calls tcs future (if skip then satisfied else tc.id ∷ satisfied) in
      (if skip then rest.0 else interrupted tc.id ∷ rest.0, rest.1)

  pub answers : Message V → List (Message V) → List String → List (Message V) × List String
  unfolding answer_calls
  answers m future satisfied =
      if m.role =s= "assistant" then answer_calls m.tool_calls future satisfied else ([], satisfied)

  -- The walk over the transcript.
  pub repair_from : List (Message V) → List String → List (Message V)
  unfolding answers
  repair_from [] satisfied = []
  repair_from (m ∷ ms) satisfied = let r = answers m ms satisfied in m ∷ (r.0 ++ repair_from ms r.1)

  unfoldable pub repair_orphaned_tool_calls : List (Message V) → List (Message V)
  unfolding satisfied_ids repair_from
  repair_orphaned_tool_calls msgs = repair_from msgs (satisfied_ids msgs)
