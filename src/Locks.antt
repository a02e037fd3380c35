-- ===== src/Locks.antt =====
-- pkg/locks/registry.go: the in-memory registry of file locks. Each method runs under the mutex, so
-- it is one step; the clock reading that it takes is its argument `now`.
pub mod Invariant
pub mod Exclusion
pub mod Views
mod Examples
use vikram.Base.{
  String, Bool, true, false, not, Option, none, some, List, [], ◌∷◌, ◌=s=◌, if◌then◌else◌, keep,
}
use vikram.Base.Int.{pos, ltb_ℤ}
use vikram.Base.Map.{Map, lookup, insert, delete, retain, values}
use vikram.Base.Result.{Result, ok, err, ◌>>=◌, ◌>>◌, guard, settle}
use vikram.Base.Time.{Time, Duration, after, before, add}

pub record FileLock : Type 0 where
  pub path : String
  pub task_id : String
  pub acquired : Time
  pub expires_at : Time

pub data Error : Type 0 where
  task_id_required path_required ttl_not_positive closed_twice : Error
  already_locked : String → Error
  not_locked : Error
  locked_by : String → Error

-- `stopped` is the closed state of `stopCh`.
pub record Registry : Type 0 where
  pub locks : Map FileLock
  pub stopped : Bool

pub new_in_memory_registry : Registry
new_in_memory_registry = record { locks = []; stopped = false }

-- The check of an existing lock in `Acquire`: an expired lock or one's own may be overwritten.
pub admit : String → Time → Option FileLock → Result Error (Unit {0})
admit task_id now none = ok tt
admit task_id now (some existing) =
    if after now existing.expires_at
    then ok tt
    else if not (existing.task_id =s= task_id)
    then err (already_locked existing.task_id)
    else ok tt

-- The entry that `Acquire` stores.
abbrev pub fresh_lock : String → String → Duration → Time → FileLock
fresh_lock task_id path ttl now = record {
  path = path;
  task_id = task_id;
  acquired = now;
  expires_at = add now ttl;
}

pub acquire : String → String → Duration → Time → Registry → Result Error Registry
unfolding admit
acquire task_id path ttl now r = do
  guard (not (task_id =s= "")) task_id_required
  guard (not (path =s= "")) path_required
  guard (ltb_ℤ (pos 0) ttl) ttl_not_positive
  admit task_id now (lookup path r.locks)
  ok (record r { locks = insert path (fresh_lock task_id path ttl now) r.locks })

-- The check of the holder in `Release`.
pub holds : String → Option FileLock → Result Error (Unit {0})
holds task_id none = err not_locked
holds task_id (some existing) =
    if not (existing.task_id =s= task_id) then err (locked_by existing.task_id) else ok tt

pub release : String → String → Registry → Result Error Registry
unfolding holds
release task_id path r = do
  guard (not (task_id =s= "")) task_id_required
  guard (not (path =s= "")) path_required
  holds task_id (lookup path r.locks)
  ok (record r { locks = delete path r.locks })

pub query : Time → Registry → List FileLock
query now r = keep (λ l. before now l.expires_at) (values r.locks)

pub holder : Time → Option FileLock → Bool × String
holder now none = (false, "")
holder now (some lock) = if after now lock.expires_at then (false, "") else (true, lock.task_id)

pub is_locked : String → Time → Registry → Result Error (Bool × String)
unfolding holder
is_locked path now r = do
  guard (not (path =s= "")) path_required
  ok (holder now (lookup path r.locks))

-- Closing `stopCh` a second time panics.
pub stop : Registry → Result Error Registry
stop r = if r.stopped then err closed_twice else ok (record r { stopped = true })

-- What `pruneExpired` keeps.
abbrev pub live : Time → FileLock → Bool
live now l = not (after now l.expires_at)

pub prune_expired : Time → Registry → Registry
prune_expired now r = record r { locks = retain (live now) r.locks }

-- One turn of `pruneLoop` at a tick of its timer; the loop has returned once `stopCh` is closed.
pub prune_loop : Time → Registry → Registry
prune_loop now r = if r.stopped then r else prune_expired now r

-- What callers and the timer do to the registry, each with the time that it reads.
pub data Call : Type 0 where
  acquires : String → String → Duration → Time → Call
  releases : String → String → Call
  ticks : Time → Call
  stops : Call

pub step : Registry → Call → Registry
step r (acquires task_id path ttl now) = settle r (acquire task_id path ttl now r)
step r (releases task_id path) = settle r (release task_id path r)
step r (ticks now) = prune_loop now r
step r stops = settle r (stop r)

pub run : Registry → List Call → Registry
run r [] = r
run r (c ∷ cs) = run (step r c) cs
