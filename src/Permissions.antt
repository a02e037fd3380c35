-- ===== src/Permissions.antt =====
-- pkg/permissions/permissions.go: the registry of the features that the agent may use. Each method
-- under the mutex is one step; a feature is its name; log output is left out.
pub mod Frozen
pub mod Granted
mod Examples
use Prim.Native.String.{◌++◌ as text_append}
use vikram.Base.{String, Bool, true, false, List, [], ◌∷◌, Option, none, some, if◌then◌else◌}
use vikram.Base.Map.{Map, lookup, insert}
use vikram.Base.Result.{Result, ok, err}

abbrev pub all_features : List String
all_features =
    "camera" ∷ "microphone" ∷ "sms" ∷ "phone_calls" ∷ "location" ∷ "clipboard" ∷ "sensors"
    ∷ "shell_hardware" ∷ "notifications" ∷ "screen" ∷ "computer_use" ∷ []

pub record Registry : Type 0 where
  pub perms : Map Bool
  pub frozen : Bool

pub data Error : Type 0 where
  is_frozen_error : Error
  denied : String → Error

pub new_registry : Registry
new_registry = record { perms = []; frozen = false }

pub freeze : Registry → Registry
freeze r = record r { frozen = true }

pub is_frozen : Registry → Bool
is_frozen r = r.frozen

-- The state, and the error if there is one.
pub set : String → Bool → Registry → Registry × Option Error
set f allowed r =
    if r.frozen
    then (r, some is_frozen_error)
    else (record r { perms = insert f allowed r.perms }, none)

abbrev pub or_false : Option Bool → Bool
or_false none = false
or_false (some v) = v

unfoldable pub is_allowed : String → Registry → Bool
is_allowed f r = or_false (lookup f r.perms)

pub check : String → Registry → Result Error Unit
unfolding is_allowed
check f r = if is_allowed f r then ok tt else err (denied f)

-- The loop over the new permissions.
pub insert_all : Map Bool → Map Bool → Map Bool
insert_all [] perms = perms
insert_all ((f, v) ∷ new) perms = insert_all new (insert f v perms)

pub set_all : Map Bool → Registry → Registry × Option Error
unfolding insert_all
set_all new r =
    if r.frozen
    then (r, some is_frozen_error)
    else (record r { perms = insert_all new r.perms }, none)

pub copy_perms : Map Bool → Map Bool
copy_perms [] = []
copy_perms ((k, v) ∷ perms) = insert k v (copy_perms perms)

pub snapshot : Registry → Map Bool
unfolding copy_perms
snapshot r = copy_perms r.perms

pub enabled : Map Bool → List String
enabled [] = []
enabled ((f, v) ∷ perms) = if v then f ∷ enabled perms else enabled perms

-- `sort` stands for `sort.Slice` with the order of strings.
pub enabled_features : (List String → List String) → Registry → List String
unfolding enabled
enabled_features sort r = sort (enabled r.perms)

pub data Call : Type 0 where
  freezes : Call
  sets : String → Bool → Call
  sets_all : Map Bool → Call

pub step : Call → Registry → Registry
unfolding freeze set set_all
step freezes r = freeze r
step (sets f v) r = (set f v r).0
step (sets_all new) r = (set_all new r).0

pub run : List Call → Registry → Registry
unfolding step
run [] r = r
run (c ∷ cs) r = run cs (step c r)
