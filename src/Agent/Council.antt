-- ===== src/Agent/Council.antt =====
-- pkg/agent/loop.go, runLLMIteration: one request to the model with its retries, the fallback model of
-- the council, and the cooldowns of models. The world `W` is that of the providers, the clock is read
-- once for each try, and the state holds what a request changes: the cooldowns, the sessions, the
-- messages, whether tools are offered, the messages sent to the user, and (for the theorems) which
-- model was asked. No other request takes a step in between; Agent/Cooldowns takes the steps of many.
-- Token budgets and log output are left out.
use Prim.Native.String.{◌++◌ as text_append}
use vikram.Base.{
  ◌+◌, ◌*◌, String, Bool, true, false, not, ◌&&◌, ◌||◌, List, [], ◌∷◌, ◌++◌, Option, none, some,
  any, if◌then◌else◌, ◌=s=◌,
}
use vikram.Base.Map.{Map, lookup, insert, delete}
use vikram.Base.Time.{Time, before, is_zero, minute}
use vikram.Base.Result.{Result, ok, err}
use vikram.Providers.{Message, LlmResponse}
use vikram.Session.{SessionManager, get_history}
use vikram.Bus.{OutboundMessage}
use vikram.Agent.{Go, build_messages, force_compression}
use vikram.Agent.Errors.{is_context_window_error}

pub data Trouble : Type 0 where
  cache_skip : Trouble
  auth_error : Trouble
  rate_limit : Trouble
  overloaded : Trouble
  other_trouble : Trouble

pub data Cooldown : Type 0 where
  free : Cooldown
  cooling : Cooldown
  expired : Cooldown

-- The zero time is a cooldown without an end.
unfoldable pub cooldown_at : Time → Option Time → Cooldown
cooldown_at now none = free
cooldown_at now (some t) = if is_zero t || before now t then cooling else expired

pub record Asked : Type 0 where
  pub by_fallback : Bool
  pub model : String

-- The model of the agent, the council, the channel of the request, and the packages outside: the
-- providers, the functions on strings, and the system prompt with the session's line and summary.
pub record Setting (W V : Type 0) : Type 0 where
  pub model : String
  pub council_enabled : Bool
  pub council_fallback : String
  pub session_key : String
  pub channel : String
  pub chat_id : String
  pub internal : Bool
  pub primary : String → Bool → List (Message V) → W → Result String (LlmResponse V) × W
  pub fallback_provider :
      Option (String → Bool → List (Message V) → W → Result String (LlmResponse V) × W)
  pub lower : String → String
  pub go : Go
  pub system_prompt : SessionManager V → String

pub record Talk (W V : Type 0) : Type 0 where
  pub world : W
  pub cooldowns : Map Time
  pub sessions : SessionManager V
  pub messages : List (Message V)
  pub with_tools : Bool
  pub sent : List OutboundMessage
  pub asked : List Asked

abbrev pub or_primary : {A : Type 0} → A → Option A → A
or_primary p none = p
or_primary p (some f) = f

module _ {W V : Type 0} (c : Setting W V) where
  -- The tests on the lowered error, the cache first.
  unfoldable pub classify : String → Trouble
  classify low =
      let has = λ (s : String). c.go.contains low s in
      if has "active cooldown cache"
      then cache_skip
      else if any has ("401" ∷ "403" ∷ "unauthorized" ∷ "forbidden" ∷ [])
      then auth_error
      else if any has ("429" ∷ "too many requests" ∷ "quota" ∷ "exhausted" ∷ "rate limit" ∷ [])
      then rate_limit
      else if any has ("503" ∷ "timeout" ∷ "service unavailable" ∷ [])
      then overloaded
      else other_trouble

  abbrev in_world :
      Asked
      → Talk W V
      → Result String (LlmResponse V) × W
      → Result String (LlmResponse V) × Talk W V
  in_world a s r = (r.0, record s { world = r.1; asked = s.asked ++ a ∷ [] })

  unfoldable pub ask_primary : Talk W V → Result String (LlmResponse V) × Talk W V
  ask_primary s =
      in_world (record { by_fallback = false; model = c.model }) s
        (c.primary c.model s.with_tools s.messages s.world)

  unfoldable pub ask_fallback : Talk W V → Result String (LlmResponse V) × Talk W V
  ask_fallback s =
      in_world (record { by_fallback = true; model = c.council_fallback }) s
        (or_primary c.primary c.fallback_provider c.council_fallback s.with_tools s.messages
          s.world)

  unfoldable pub notify : String → Talk W V → Talk W V
  notify text s = if c.internal then s else record s {
    sent = s.sent ++ record { channel = c.channel; chat_id = c.chat_id; content = text } ∷ [];
  }

  abbrev store_cooldown : Time → Talk W V → Talk W V
  store_cooldown t s = record s { cooldowns = insert c.model t s.cooldowns }

  abbrev pub auth_text : String
  auth_text = text_append "⚠\u{fe0f} The API key for `" (
      text_append c.model (
        text_append "` is unauthorised or expired (401/403). Shifting to fallback model (`"
          (text_append c.council_fallback "`). Please check your billing.")))

  abbrev rate_text : String
  rate_text = text_append "⚠\u{fe0f} Rate limit / quota exceeded on `" (
      text_append c.model (
        text_append "` (429). Cooling down for 5 minutes and shifting to fallback (`"
          (text_append c.council_fallback "`).")))

  abbrev overload_text : String
  overload_text = text_append "⚠\u{fe0f} `" (
      text_append c.model (
        text_append "` servers are overloaded (503). Retrying on fallback model (`"
          (text_append c.council_fallback "`).")))

  -- What the council does about an error of the primary model.
  unfoldable pub recover_from :
      Trouble → Time → String → Talk W V → Result String (LlmResponse V) × Talk W V
  unfolding ask_fallback notify
  recover_from cache_skip now e s = ask_fallback s
  recover_from auth_error now e s = ask_fallback (notify auth_text (store_cooldown 0 s))
  recover_from rate_limit now e s =
      ask_fallback (notify rate_text (store_cooldown (now + 5 * minute) s))
  recover_from overloaded now e s =
      ask_fallback (notify overload_text (store_cooldown (now + minute) s))
  recover_from other_trouble now e s = (err e, s)

  unfoldable pub has_council : Bool
  unfolding ◌=s=◌
  has_council =
      c.council_enabled && not (c.council_fallback =s= "") && not (c.council_fallback =s= c.model)

  unfoldable pub council :
      Time → Result String (LlmResponse V) × Talk W V → Result String (LlmResponse V) × Talk W V
  unfolding recover_from classify has_council
  council now (ok r, s) = (ok r, s)
  council now (err e, s) =
      if has_council then recover_from (classify (c.lower e)) now e s else (err e, s)

  abbrev pub skipped_text : String
  skipped_text =
      text_append "council: primary " (text_append c.model " skipped due to active cooldown cache")

  unfoldable pub try_primary : Cooldown → Talk W V → Result String (LlmResponse V) × Talk W V
  unfolding ask_primary
  try_primary free s = ask_primary s
  try_primary cooling s = (err skipped_text, s)
  try_primary expired s = ask_primary (record s { cooldowns = delete c.model s.cooldowns })

  -- One try, with no other request of the agent between its steps: the primary model if it is not
  -- cooling down, then the council. (Agent/Cooldowns takes the same steps of many tries in any order.)
  unfoldable pub attempt : Time → Talk W V → Result String (LlmResponse V) × Talk W V
  unfolding try_primary council cooldown_at lookup
  attempt now s = council now (try_primary (cooldown_at now (lookup c.model s.cooldowns)) s)

  unfoldable pub is_tool_error : String → Bool
  is_tool_error low =
      any (λ (s : String). c.go.contains low s)
        ("tool calling is not supported" ∷ "tools are not supported" ∷ "does not support tools"
          ∷ "does not support function" ∷ [])

  -- The compression of the session and the messages that are built from it.
  unfoldable pub compressed : Time → Talk W V → Talk W V
  unfolding force_compression get_history build_messages
  compressed now s =
      let sm = force_compression c.go c.session_key now s.sessions in
      record s {
        sessions = sm;
        messages = build_messages c.go (c.system_prompt sm) (get_history c.session_key sm) "";
      }

  abbrev overflow_text : String
  overflow_text = "⚠\u{fe0f} Context window exceeded. Compressing history and retrying..."

  -- What the next try starts from, if the error allows one.
  unfoldable pub retry_from : Bool → Time → String → Talk W V → Option (Talk W V)
  unfolding is_tool_error compressed notify
  retry_from is_first now e s =
      if is_tool_error (c.lower e)
      then some (record s { with_tools = false })
      else if is_context_window_error c.go.contains c.lower (c.lower e)
      then some (compressed now (if is_first then notify overflow_text s else s))
      else none

  unfoldable pub resumed :
      (Talk W V → Result String (LlmResponse V) × Talk W V)
      → String
      → Talk W V
      → Option (Talk W V)
      → Result String (LlmResponse V) × Talk W V
  resumed next e s none = (err e, s)
  resumed next e s (some s2) = next s2

  unfoldable pub resume :
      (Talk W V → Result String (LlmResponse V) × Talk W V)
      → Bool
      → Time
      → Result String (LlmResponse V) × Talk W V
      → Result String (LlmResponse V) × Talk W V
  unfolding resumed retry_from
  resume next is_first now (ok r, s) = (ok r, s)
  resume next is_first now (err e, s) = resumed next e s (retry_from is_first now e s)

  -- The tries that are left are given by their times.
  unfoldable pub retry_loop :
      Bool → Time → List Time → Talk W V → Result String (LlmResponse V) × Talk W V
  unfolding attempt resume
  retry_loop is_first now [] s = attempt now s
  retry_loop is_first now (t ∷ ts) s = resume (retry_loop false t ts) is_first now (attempt now s)

-- The messages of a request, and the times of its three tries.
pub record Request (V : Type 0) : Type 0 where
  pub messages : List (Message V)
  pub first_time : Time
  pub second_time : Time
  pub third_time : Time

module _ {W V : Type 0} (c : Setting W V) where
  unfoldable pub call_model : Request V → Talk W V → Result String (LlmResponse V) × Talk W V
  unfolding retry_loop
  call_model q s =
      retry_loop c true q.first_time (q.second_time ∷ q.third_time ∷ [])
        (record s { messages = q.messages; with_tools = true })
