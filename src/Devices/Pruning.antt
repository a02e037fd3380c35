-- ===== src/Devices/Pruning.antt =====
-- pkg/sync/registry.go: what `PruneStale` does.
use vikram.Base.{String, false, ◌≡◌, refl, [], ◌∷◌, Option, none, some, arith, if◌then◌else◌}
use vikram.Base.Map.{Map, lookup}
use vikram.Base.Time.{Time, Duration, sub}
use vikram.Devices.{DeviceInfo, Device, Registry, is_stale, prune_all, prune_stale, get, info_of}

-- The device after the pruning.
pub pruned : Time → String → DeviceInfo → DeviceInfo
pruned cutoff self_id d = if is_stale cutoff self_id d then record d { online = false } else d

abbrev pub pruned_option : Time → String → Option DeviceInfo → Option DeviceInfo
pruned_option cutoff self_id none = none
pruned_option cutoff self_id (some d) = some (pruned cutoff self_id d)

lookup-prune_all :
    (cutoff : Time) (self_id k : String) (ds : Map Device)
    → info_of (lookup k (prune_all cutoff self_id ds).0)
      ≡ pruned_option cutoff self_id (info_of (lookup k ds))
unfolding prune_all lookup pruned
lookup-prune_all cutoff self_id k [] = refl
lookup-prune_all cutoff self_id k ((j, d) ∷ ds) =
    ground (arith, lookup-prune_all cutoff self_id k ds)

-- After the pruning a device is as it was, except that it is offline if it was online, has another id
-- than this device, and was last seen before the cutoff.
pub get-prune_stale :
    (timeout : Duration) (now : Time) (r : Registry) (id : String)
    → get id (prune_stale timeout now r).0
      ≡ pruned_option (sub now timeout) r.self.info.id (get id r)
unfolding get prune_stale
get-prune_stale timeout now r id = lookup-prune_all (sub now timeout) r.self.info.id id r.devices
