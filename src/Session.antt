-- ===== src/Session.antt =====
-- pkg/session/manager.go: the conversations of an agent and their histories. Each method runs under
-- the lock and is one step; `now` is the time that it reads. A history is a list of values: what the
-- copies of `deepCopyMessages` share with their originals in memory is not modelled.
pub mod Repair
pub mod Copies
pub mod Histories
mod Examples
use vikram.Base.{
  ℕ, String, Bool, List, [], ◌∷◌, ◌++◌, Option, none, some, map, if◌then◌else◌, leb, length, drop,
  ◌-◌,
}
use mathlib.Core.Option
use vikram.Base.Int.{ℤ, pos, leb_ℤ, pos_part}
use vikram.Base.Map.{Map, lookup, insert}
use vikram.Base.Time.{Time}
use vikram.Providers.{Message, ToolCall, FunctionCall}

pub record Session (V : Type 0) : Type 0 where
  pub key : String
  pub messages : List (Message V)
  pub summary : String
  pub created : Time
  pub updated : Time

pub record SessionManager (V : Type 0) : Type 0 where
  pub sessions : Map (Session V)

module _ {V : Type 0} where
  copy_arguments : Option (Map V) → Option (Map V)
  copy_arguments none = none
  copy_arguments (some args) = some (map (λ kv. (kv.0, kv.1)) args)

  copy_call : ToolCall V → ToolCall V
  unfolding copy_arguments
  copy_call tc = record {
    id = tc.id;
    kind = tc.kind;
    function = tc.function;
    name = tc.name;
    arguments = copy_arguments tc.arguments;
  }

  -- The copy of one message; of an empty list of calls it makes none.
  copy_message : Message V → Message V
  unfolding copy_call
  copy_message m = record {
    role = m.role;
    content = m.content;
    tool_call_id = m.tool_call_id;
    tool_calls = map copy_call m.tool_calls;
  }

  pub deep_copy_messages : List (Message V) → List (Message V)
  unfolding copy_message
  deep_copy_messages src = map copy_message src

  fresh_session : String → Time → Session V
  fresh_session key now = record {
    key = key;
    messages = [];
    summary = "";
    created = now;
    updated = now;
  }

  or_fresh : String → Time → Option (Session V) → Session V
  unfolding fresh_session
  or_fresh key now none = fresh_session key now
  or_fresh key now (some s) = s

  store : String → Option (Session V) → SessionManager V → SessionManager V
  store key none sm = sm
  store key (some s) sm = record { sessions = insert key s sm.sessions }

  pub get_or_create : String → Time → SessionManager V → SessionManager V × Session V
  unfolding fresh_session
  get_or_create key now sm = elim (lookup key sm.sessions) [
    | some s ↦ (sm, s)
    | none ↦ let s = fresh_session key now in (record { sessions = insert key s sm.sessions }, s)
  ]

  pub add_full_message : String → Message V → Time → SessionManager V → SessionManager V
  unfolding or_fresh
  add_full_message key msg now sm =
      let s = or_fresh key now (lookup key sm.sessions) in
      record {
        sessions =
            insert key (record s { messages = s.messages ++ msg ∷ []; updated = now }) sm.sessions;
      }

  pub add_message : String → String → String → Time → SessionManager V → SessionManager V
  unfolding add_full_message
  add_message key role content now sm =
      add_full_message key
        (record { role = role; content = content; tool_calls = []; tool_call_id = "" }) now sm

  unfoldable pub get_history : String → SessionManager V → List (Message V)
  unfolding deep_copy_messages
  get_history key sm = elim (lookup key sm.sessions) [
    | none ↦ []
    | some s ↦ deep_copy_messages s.messages
  ]

  unfoldable pub get_summary : String → SessionManager V → String
  get_summary key sm = elim (lookup key sm.sessions) [ none ↦ "" | some s ↦ s.summary ]

  -- The methods below change a session that is there, and do nothing to one that is not.
  on_session : (Session V → Session V) → String → SessionManager V → SessionManager V
  unfolding store
  on_session f key sm = store key (Option.map f (lookup key sm.sessions)) sm

  pub set_summary : String → String → Time → SessionManager V → SessionManager V
  unfolding on_session
  set_summary key summary now = on_session (λ s. record s { summary = summary; updated = now }) key

  -- The last `k` messages.
  abbrev pub last : ℕ → List (Message V) → List (Message V)
  last k ms = drop (length ms - k) ms

  truncate : ℤ → Time → Session V → Session V
  truncate keep_last now s =
      if leb_ℤ keep_last (pos 0)
      then record s { messages = []; updated = now }
      else if leb (length s.messages) (pos_part keep_last)
      then s
      else record s { messages = last (pos_part keep_last) s.messages; updated = now }

  pub truncate_history : String → ℤ → Time → SessionManager V → SessionManager V
  unfolding on_session truncate
  truncate_history key keep_last now = on_session (truncate keep_last now) key

  unfoldable pub set_history :
      String → List (Message V) → Time → SessionManager V → SessionManager V
  unfolding on_session deep_copy_messages
  set_history key history now =
      on_session (λ s. record s { messages = deep_copy_messages history; updated = now }) key

  summarize : String → ℤ → Time → Session V → Session V
  unfolding deep_copy_messages
  summarize summary keep_last now s =
      let t = record s { summary = summary; updated = now } in
      if leb_ℤ keep_last (pos 0)
      then record t { messages = [] }
      else if leb (length s.messages) (pos_part keep_last)
      then t
      else record t { messages = deep_copy_messages (last (pos_part keep_last) s.messages) }

  unfoldable pub summarize_and_truncate :
      String → String → ℤ → Time → SessionManager V → SessionManager V
  unfolding on_session summarize
  summarize_and_truncate key summary keep_last now =
      on_session (summarize summary keep_last now) key
