-- ===== src/Proactive/Heartbeat.antt =====
-- pkg/heartbeat/service.go: one heartbeat, from the prompt to the message it sends. The handler, the
-- clock and the file HEARTBEAT.md are arguments.
use Prim.Native.String.{◌++◌ as text_append}
use vikram.Base.{
  ℕ, zero, suc, leb, String, Bool, true, false, not, ◌||◌, List, [], ◌∷◌, Option, none, some,
  if◌then◌else◌, ◌=s=◌, any,
}
use vikram.Base.Int.{ℤ, pos, negsuc}
use vikram.Base.Time.{Time}
use vikram.Bus.{OutboundMessage}
use vikram.Proactive.{Calendar, Routine, Engine, check_routines, mark_routine_triggered}

abbrev internal_channels : List String
internal_channels = "cli" ∷ "system" ∷ "subagent" ∷ []

unfoldable pub is_internal_channel : String → Bool
unfolding ◌=s=◌
is_internal_channel c = any (λ i. i =s= c) internal_channels

-- The minutes between heartbeats.
pub interval_minutes : ℤ → ℤ
interval_minutes (pos zero) = pos 30
interval_minutes (pos (suc n)) = if leb 5 (suc n) then pos (suc n) else pos 5
interval_minutes (negsuc n) = pos 5

pub record BeatResult : Type 0 where
  pub for_llm : String
  pub for_user : String
  pub silent : Bool
  pub is_error : Bool
  pub async : Bool

pub record HeartbeatService : Type 0 where
  pub enabled : Bool
  pub running : Bool
  pub has_bus : Bool
  pub interval : ℤ

pub new_heartbeat_service : ℤ → Bool → HeartbeatService
unfolding interval_minutes
new_heartbeat_service minutes enabled = record {
  enabled = enabled;
  running = false;
  has_bus = false;
  interval = interval_minutes minutes;
}

pub start : HeartbeatService → HeartbeatService
start s = if s.running then s else if s.enabled then record s { running = true } else s

pub stop : HeartbeatService → HeartbeatService
stop s = record s { running = false }

-- What strings.SplitN(lastChannel, ":", 2) gives: the part before the first colon and the rest.
unfoldable pub named_channel : Option (String × String) → String × String
unfolding is_internal_channel ◌=s=◌
named_channel none = ("", "")
named_channel (some (platform, user)) =
    if platform =s= "" || user =s= "" || is_internal_channel platform
    then ("", "")
    else (platform, user)

-- `split` stands for SplitN with a colon: `none` where there is no colon.
module _ (split : String → Option (String × String)) where
  pub parse_last_channel : String → String × String
  unfolding named_channel ◌=s=◌
  parse_last_channel last = if last =s= "" then ("", "") else named_channel (split last)

  pub send_response : HeartbeatService → String → String → Option OutboundMessage
  unfolding parse_last_channel ◌=s=◌
  send_response s last response =
      let to = parse_last_channel last in
      if not s.has_bus || last =s= "" || to.0 =s= "" || to.1 =s= ""
      then none
      else some (record { channel = to.0; chat_id = to.1; content = response })

  -- What becomes of the handler's result.
  pub deliver : HeartbeatService → String → Option BeatResult → Option OutboundMessage
  unfolding send_response ◌=s=◌
  deliver s last none = none
  deliver s last (some r) =
      if r.is_error || r.async || r.silent
      then none
      else if not (r.for_user =s= "")
      then send_response s last r.for_user
      else if not (r.for_llm =s= "")
      then send_response s last r.for_llm
      else none

due_text : {F : Type 0} → List (Routine F) → String
due_text [] = ""
due_text (r ∷ rs) = text_append "- **" (
    text_append (Routine.name r)
      (text_append "**: " (text_append (Routine.action r) (text_append "\n" (due_text rs)))))

unfoldable pub with_routines : {F : Type 0} → String → List (Routine F) → String
unfolding due_text
with_routines prompt [] = prompt
with_routines prompt (r ∷ rs) =
    text_append prompt (text_append "\n\n## Proactive Routines Due Now\n" (due_text (r ∷ rs)))

-- The marks of the loop; `clock` gives the readings of the clock, one for each mark.
unfoldable pub mark_triggered :
    {F : Type 0} → (ℕ → Time) → Bool → List (Routine F) → Engine F → Engine F
mark_triggered clock ok [] e = e
mark_triggered clock ok (r ∷ rs) e =
    mark_triggered (λ n. clock (suc n)) ok rs (mark_routine_triggered (Routine.id r) (clock 0) ok e)

-- A handler gets the prompt, the channel and the chat; nil is `none`.
abbrev pub Handler : Type 0
Handler = Option (String → String → String → Option BeatResult)

unfoldable pub handled :
    (String → Option (String × String))
    → HeartbeatService
    → Handler
    → String
    → String
    → Option OutboundMessage
unfolding deliver parse_last_channel
handled split s none last prompt = none
handled split s (some f) last prompt =
    let to = parse_last_channel split last in deliver split s last (f prompt to.0 to.1)

module _ {F : Type 0} (cal : Calendar) (split : String → Option (String × String)) where
  -- `executeHeartbeat` with an engine: the engine afterwards and the message that is sent. `prompt`
  -- is what buildPrompt makes of HEARTBEAT.md.
  unfoldable pub execute_heartbeat :
      HeartbeatService
      → Handler
      → String
      → String
      → Time
      → (ℕ → Time)
      → Bool
      → Engine F
      → Engine F × Option OutboundMessage
  unfolding mark_triggered handled with_routines check_routines ◌=s=◌
  execute_heartbeat s f last prompt now clock ok e =
      let due = check_routines cal now e.routines in
      if not s.enabled || not s.running || prompt =s= ""
      then (e, none)
      else (mark_triggered clock ok due e, handled split s f last (with_routines prompt due))
