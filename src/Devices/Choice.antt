-- ===== src/Devices/Choice.antt =====
-- pkg/sync/registry.go: which device `BestDeviceFor` gives.
use mathlib.Core.List.{Mem, mem-cons_self, mem-cons_of_mem}
use vikram.Base.{
  String, Bool, true, false, ◌&&◌, ◌||◌, ◌≡◌, refl, sym, ap, ◌∙◌, subst, List, [], ◌∷◌, Option,
  none, some, arith, any, keep, ◌=s=◌, mem_of_keep, keep_of_mem, Bool-cases, Option-cases, inl, inr,
  map,
}
use vikram.Base.Map.{values}
use vikram.Devices.{
  DeviceInfo, Device, Registry, first, or_else, with_capability, has_capability, self_info,
  best_device_for, all_devices,
}

first-any :
    (p : DeviceInfo → Bool) (ds : List DeviceInfo) {d : DeviceInfo}
    → first p ds ≡ some d
    → (p d ≡ true) × Mem d ds
unfolding first
first-any p [] h = absurd (cc h)
first-any p (x ∷ ds) {d} h = elim (Bool-cases (p x)) [
  | inl e ↦
      let same : x ≡ d = ground (arith, h) in
      (ap p (sym same) ∙ e, subst (λ y. Mem y (x ∷ ds)) same mem-cons_self)
  | inr e ↦ let rest = first-any p ds (ground (arith, h)) in (rest.0, mem-cons_of_mem x rest.1)
]

first-none : (p : DeviceInfo → Bool) (ds : List DeviceInfo) → first p ds ≡ none → any p ds ≡ false
unfolding first
first-none p [] h = refl
first-none p (x ∷ ds) h = ground (arith, first-none p ds)

any-keep :
    (p q : DeviceInfo → Bool) (ds : List DeviceInfo) → any p (keep q ds) ≡ any (λ d. q d && p d) ds
any-keep p q [] = refl
any-keep p q (d ∷ ds) = ground (arith, any-keep p q ds)

-- The device may be chosen: it has the capability, and is online or this device itself.
abbrev pub serves : String → String → DeviceInfo → Bool
serves cap self_id d = has_capability cap d && (d.id =s= self_id || d.online)

abbrev choice : String → String → List DeviceInfo → Option DeviceInfo
choice cap self_id ds =
    or_else (first (λ d. d.id =s= self_id) (keep (has_capability cap) ds))
      (first (λ d. d.online) (keep (has_capability cap) ds))

choice-serves :
    (cap self_id : String) (ds : List DeviceInfo) (d : DeviceInfo)
    → choice cap self_id ds ≡ some d
    → Mem d ds × (serves cap self_id d ≡ true)
choice-serves cap self_id ds d h =
    elim (Option-cases (first (λ d. d.id =s= self_id) (keep (has_capability cap) ds))) [
      | inl e ↦
          let (online, m) = first-any (λ d. d.online) (keep (has_capability cap) ds) (rw e at h) in
          (
            mem_of_keep (has_capability cap) d ds m,
            ground (arith, keep_of_mem (has_capability cap) d ds m),
          )
      | inr (x, e) ↦
          let (same, m) =
            first-any (λ d. d.id =s= self_id) (keep (has_capability cap) ds) (e ∙ (rw e at h)) in
          (
            mem_of_keep (has_capability cap) d ds m,
            ground (arith, keep_of_mem (has_capability cap) d ds m),
          )
    ]

any_neither :
    (cap self_id : String) (ds : List DeviceInfo)
    → any (λ d. has_capability cap d && d.id =s= self_id) ds ≡ false
    → any (λ d. has_capability cap d && d.online) ds ≡ false
    → any (serves cap self_id) ds ≡ false
any_neither cap self_id [] h g = refl
any_neither cap self_id (d ∷ ds) h g = ground (arith, any_neither cap self_id ds)

no_choice :
    (cap self_id : String) (ds : List DeviceInfo)
    → choice cap self_id ds ≡ none
    → any (serves cap self_id) ds ≡ false
no_choice cap self_id ds h =
    elim (Option-cases (first (λ d. d.id =s= self_id) (keep (has_capability cap) ds))) [
      | inl e ↦
          any_neither cap self_id ds
            (sym (any-keep (λ d. d.id =s= self_id) (has_capability cap) ds) ∙ first-none _ _ e)
            (sym (any-keep (λ d. d.online) (has_capability cap) ds) ∙ first-none _ _ (rw e at h))
      | inr (x, e) ↦ absurd (cc (rw e at h))
    ]

-- The device that is chosen is registered, has the capability, and is online or this device itself;
-- and there is no such device if none is chosen.
pub best_device_for_lem :
    (cap : String) (r : Registry)
    → ((d : DeviceInfo)
        → best_device_for cap r ≡ some d
        → Mem d (all_devices r) × (serves cap (self_info r).id d ≡ true))
      × (best_device_for cap r ≡ none → any (serves cap (self_info r).id) (all_devices r) ≡ false)
unfolding best_device_for with_capability all_devices
best_device_for_lem cap r =
    let ds = map (λ (d : Device). d.info) (values r.devices) in
    (λ d h. choice-serves cap (self_info r).id ds d h, λ h. no_choice cap (self_info r).id ds h)
