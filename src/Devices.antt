-- ===== src/Devices.antt =====
-- pkg/sync/registry.go: the devices on the network and the choice of one for a session. A `Device` is
-- an object with its address `ref`: `self` points to one that the map may hold as well, so a write to
-- it is seen in both. Clock readings are arguments.
pub mod Choice
pub mod Pruning
mod Examples
use vikram.Base.{
  ℕ, zero, suc, ◌+◌, String, Bool, true, false, not, ◌&&◌, List, [], ◌∷◌, Option, none, some, ◌=s=◌,
  ◌==◌, if◌then◌else◌, length, keep, any, map,
}
use vikram.Base.Map.{Map, lookup, insert, delete, values}
use vikram.Base.Result.{Result, ok, err}
use vikram.Base.Time.{Time, Duration, before, sub}

pub record DeviceInfo : Type 0 where
  pub id : String
  pub name : String
  pub host : String
  pub port : ℕ
  pub platform : String
  pub capabilities : List String
  pub location : String
  pub version : String
  pub last_seen : Time
  pub online : Bool

pub record Device : Type 0 where
  pub ref : ℕ
  pub info : DeviceInfo

pub record Registry : Type 0 where
  pub devices : Map Device
  pub self : Device
  pub next_ref : ℕ

abbrev pub seen : Time → DeviceInfo → DeviceInfo
seen now d = record d { online = true; last_seen = now }

pub new_registry : DeviceInfo → Time → Registry
new_registry self now =
    let d : Device = record { ref = 0; info = seen now self } in
    record { devices = insert self.id d []; self = d; next_ref = 1 }

pub self_info : Registry → DeviceInfo
self_info r = r.self.info

pub register : DeviceInfo → Time → Registry → Registry
register device now r = record r {
  devices = insert device.id (record { ref = r.next_ref; info = seen now device }) r.devices;
  next_ref = suc r.next_ref;
}

pub unregister : String → Registry → Registry
unregister id r = record r { devices = delete id r.devices }

abbrev pub info_of : Option Device → Option DeviceInfo
info_of none = none
info_of (some d) = some d.info

pub get : String → Registry → Option DeviceInfo
get id r = info_of (lookup id r.devices)

pub all_devices : Registry → List DeviceInfo
all_devices r = map (λ (d : Device). d.info) (values r.devices)

pub online_devices : Registry → List DeviceInfo
online_devices r = keep (λ d. d.online) (map (λ (d : Device). d.info) (values r.devices))

abbrev pub has_capability : String → DeviceInfo → Bool
has_capability cap d = any (λ c. c =s= cap) d.capabilities

pub with_capability : String → Registry → List DeviceInfo
with_capability cap r = keep (has_capability cap) (map (λ (d : Device). d.info) (values r.devices))

pub by_location : String → Registry → List DeviceInfo
by_location location r =
    keep (λ d. d.location =s= location) (map (λ (d : Device). d.info) (values r.devices))

pub count : Registry → ℕ
count r = length r.devices

-- A write through a pointer, seen wherever the object is held.
pub write : ℕ → (DeviceInfo → DeviceInfo) → Device → Device
write ref f d = if d.ref == ref then record d { info = f d.info } else d

pub write_all : ℕ → (DeviceInfo → DeviceInfo) → Map Device → Map Device
unfolding write
write_all ref f [] = []
write_all ref f ((k, d) ∷ ds) = (k, write ref f d) ∷ write_all ref f ds

pub mark_offline : String → Registry → Registry
unfolding write write_all
mark_offline id r = elim (lookup id r.devices) [
  | none ↦ r
  | some d ↦ record r {
    devices = write_all d.ref (λ i. record i { online = false }) r.devices;
    self = write d.ref (λ i. record i { online = false }) r.self;
  }
]

pub is_stale : Time → String → DeviceInfo → Bool
is_stale cutoff self_id d = d.online && not (d.id =s= self_id) && before d.last_seen cutoff

-- The loop over the devices: the map after it, and the number of devices that it marked. A device with
-- the id of `self` is left alone, so the writes do not reach `self`.
pub prune_all : Time → String → Map Device → Map Device × ℕ
unfolding is_stale
prune_all cutoff self_id [] = ([], 0)
prune_all cutoff self_id ((k, d) ∷ ds) =
    let rest = prune_all cutoff self_id ds in
    if is_stale cutoff self_id d.info
    then ((k, record d { info = record d.info { online = false } }) ∷ rest.0, suc rest.1)
    else ((k, d) ∷ rest.0, rest.1)

pub prune_stale : Duration → Time → Registry → Registry × ℕ
unfolding prune_all
prune_stale timeout now r =
    let pruned = prune_all (sub now timeout) r.self.info.id r.devices in
    (record r { devices = pruned.0 }, pruned.1)

pub data TransferError : Type 0 where
  not_found : String → TransferError
  is_offline : String → TransferError

abbrev admitted : String → Option DeviceInfo → Result TransferError Unit
admitted id none = err (not_found id)
admitted id (some d) = if not d.online then err (is_offline id) else ok tt

-- The session is not used yet.
pub transfer : String → Registry → Result TransferError Unit
unfolding get
transfer target_id r = admitted target_id (get target_id r)

pub first : (DeviceInfo → Bool) → List DeviceInfo → Option DeviceInfo
first p [] = none
first p (d ∷ ds) = if p d then some d else first p ds

abbrev pub or_else : Option DeviceInfo → Option DeviceInfo → Option DeviceInfo
or_else none o = o
or_else (some d) o = some d

pub best_device_for : String → Registry → Option DeviceInfo
unfolding first with_capability self_info
best_device_for cap r =
    or_else (first (λ d. d.id =s= (self_info r).id) (with_capability cap r))
      (first (λ d. d.online) (with_capability cap r))
