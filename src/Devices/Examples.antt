-- ===== src/Devices/Examples.antt =====
-- Runs of pkg/sync/registry.go with two devices.
use mathlib.Core.List.{Mem}
use vikram.Base.{true, false, ◌≡◌, [], ◌∷◌, none, some, any}
use vikram.Devices.{
  DeviceInfo, Registry, new_registry, register, best_device_for, all_devices, self_info,
}
use vikram.Devices.Choice.{serves, best_device_for_lem}

abbrev phone : DeviceInfo
phone = record {
  id = "phone";
  name = "Phone";
  host = "10.0.0.2";
  port = 80;
  platform = "android";
  capabilities = "camera" ∷ [];
  location = "";
  version = "1";
  last_seen = 0;
  online = true;
}

abbrev laptop : DeviceInfo
laptop = record phone { id = "laptop"; name = "Laptop"; platform = "linux" }

abbrev two_devices : Registry
two_devices = register phone 60 (new_registry laptop 50)

best_device_for_lem_example :
    ((d : DeviceInfo)
      → best_device_for "camera" two_devices ≡ some d
      → Mem d (all_devices two_devices) × (serves "camera" (self_info two_devices).id d ≡ true))
    × (best_device_for "camera" two_devices ≡ none
        → any (serves "camera" (self_info two_devices).id) (all_devices two_devices) ≡ false)
best_device_for_lem_example = best_device_for_lem "camera" two_devices
