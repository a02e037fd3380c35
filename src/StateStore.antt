-- ===== src/StateStore.antt =====
-- pkg/state/state.go: the state of a workspace and its file. The file's content is the state that was
-- encoded, and the clock is an argument. A setter changes the state and encodes it under the mutex
-- `mu`, keeps `mu` until it has `ioMu`, and writes under `ioMu`: those are three steps here.
pub mod Writes
mod Examples
use Prim.Native.String.{◌++◌ as text_append}
use vikram.Base.{
  ℕ, String, Bool, true, false, List, [], ◌∷◌, Option, none, some, if◌then◌else◌, length,
}
use vikram.Base.Map.{Map, lookup, insert, delete}
use vikram.Base.Time.{Time, Duration, after, sub}

pub record UserState : Type 0 where
  pub channel : String
  pub chat_id : String
  pub sender_id : String
  pub last_active : Time

-- A nil map of users is `none`.
pub record State : Type 0 where
  pub last_channel : String
  pub last_chat_id : String
  pub timestamp : Time
  pub users : Option (Map UserState)

-- What reading a file gives; `broken` is what the decoder had filled in when it failed.
pub data StateFile : Type 0 where
  absent : StateFile
  no_access : StateFile
  broken : State → StateFile
  content : State → StateFile

-- `waiting` has the mutex of the state and waits for that of the file, `writing` has the latter.
pub record Manager : Type 0 where
  pub state : State
  pub waiting : Option State
  pub writing : Option State
  pub state_file : StateFile

abbrev pub empty_state : State
empty_state = record { last_channel = ""; last_chat_id = ""; timestamp = 0; users = none }

abbrev idle_manager : State → StateFile → Manager
idle_manager st file = record { state = st; waiting = none; writing = none; state_file = file }

-- The state after loading a file: an error leaves what the decoder had filled in.
pub loaded_state : StateFile → State
loaded_state absent = empty_state
loaded_state no_access = empty_state
loaded_state (broken st) = st
loaded_state (content st) = st

migrated : StateFile → Bool → Manager
migrated absent saved = idle_manager empty_state absent
migrated no_access saved = idle_manager empty_state absent
migrated (broken st) saved = idle_manager st absent
migrated (content st) saved = idle_manager st (if saved then content st else absent)

-- The file at its place and the one at the old place; `saved` tells whether the migration's write
-- succeeds.
pub new_manager : StateFile → StateFile → Bool → Manager
unfolding loaded_state migrated
new_manager absent old saved = migrated old saved
new_manager no_access old saved = idle_manager (loaded_state no_access) no_access
new_manager (broken st) old saved = idle_manager (loaded_state (broken st)) (broken st)
new_manager (content st) old saved = idle_manager (loaded_state (content st)) (content st)

pub set_last_channel : String → Time → State → State
set_last_channel channel now st = record st { last_channel = channel; timestamp = now }

pub set_last_chat_id : String → Time → State → State
set_last_chat_id chat_id now st = record st { last_chat_id = chat_id; timestamp = now }

abbrev or_empty : Option (Map UserState) → Map UserState
or_empty none = []
or_empty (some users) = users

pub set_user_state : String → String → String → String → Time → State → State
unfolding insert
set_user_state user_key channel chat_id sender_id now st =
    let user : UserState = record {
      channel = channel;
      chat_id = chat_id;
      sender_id = sender_id;
      last_active = now;
    } in
    record st {
      users = some (insert user_key user (or_empty (State.users st)));
      last_channel = text_append channel (text_append ":" chat_id);
      last_chat_id = chat_id;
      timestamp = now;
    }

-- `none` where RemoveUser returns without a change.
pub remove_user : String → Time → State → Option State
unfolding delete
remove_user user_key now st = elim (State.users st) [
  | none ↦ none
  | some users ↦ some (record st { users = some (delete user_key users); timestamp = now })
]

pub get_user_state : String → State → Option UserState
unfolding lookup
get_user_state user_key st = elim (State.users st) [
  | none ↦ none
  | some users ↦ lookup user_key users
]

pub copied_users : Map UserState → Map UserState
unfolding insert
copied_users [] = []
copied_users ((k, v) ∷ users) = insert k v (copied_users users)

pub get_all_users : State → Option (Map UserState)
unfolding copied_users
get_all_users st = elim (State.users st) [ none ↦ none | some users ↦ some (copied_users users) ]

pub active_users : Time → Map UserState → Map UserState
unfolding insert
active_users cutoff [] = []
active_users cutoff ((k, v) ∷ users) =
    let rest = active_users cutoff users in
    if after (UserState.last_active v) cutoff then insert k v rest else rest

pub get_active_users : Duration → Time → State → Option (Map UserState)
unfolding active_users
get_active_users within now st = elim (State.users st) [
  | none ↦ none
  | some users ↦ some (active_users (sub now within) users)
]

pub user_count : State → ℕ
user_count st = elim (State.users st) [ none ↦ 0 | some users ↦ length users ]

-- A setter takes the mutex of the state, if no one has it, and encodes what it has changed.
pub begin_write : Option State → Option State → Manager → Manager
begin_write (some w) next m = m
begin_write none none m = m
begin_write none (some st) m = record m { state = st; waiting = some st }

-- It takes the mutex of the file, if no one has it, and gives back that of the state.
pub take_file : Option State → Option State → Manager → Manager
take_file (some st) none m = record m { waiting = none; writing = some st }
take_file (some st) (some w) m = m
take_file none writing m = m

-- It writes a temporary file, renames it, or fails, and gives back the mutex of the file.
pub end_write : Bool → Option State → Manager → Manager
end_write saved none m = m
end_write true (some st) m = record m { writing = none; state_file = content st }
end_write false (some st) m = record m { writing = none }
