-- ===== src/Permissions/Examples.antt =====
-- Runs of pkg/permissions/permissions.go.
use vikram.Base.{true, false, List, [], ◌∷◌, some, ◌≡◌, refl, ◌=s=◌}
use vikram.Base.Map.{lookup, insert, Distinct}
use vikram.Permissions.{
  Registry, new_registry, Call, freezes, sets, sets_all, freeze, set, set_all, insert_all,
  is_allowed, step, run, is_frozen_error,
}
use vikram.Permissions.Frozen.{run-freeze}

abbrev two_features : Registry
two_features = record { perms = ("camera", true) ∷ ("sms", false) ∷ []; frozen = false }

abbrev calls : List Call
calls = sets "camera" true ∷ sets_all (("sms", false) ∷ []) ∷ freezes ∷ sets "sms" true ∷ []

camera_allowed : is_allowed "camera" (run calls new_registry) ≡ true
unfolding is_allowed run step set set_all insert_all freeze new_registry insert lookup ◌=s=◌
camera_allowed = refl

run-freeze_example :
    (run calls (freeze two_features) ≡ freeze two_features)
    × (set "sms" true (run calls (freeze two_features))
        ≡ (freeze two_features, some is_frozen_error))
    × (set_all [] (run calls (freeze two_features)) ≡ (freeze two_features, some is_frozen_error))
run-freeze_example = run-freeze calls two_features "sms" true []

two_features-Distinct : Distinct two_features.perms
unfolding lookup ◌=s=◌
two_features-Distinct = (refl, (refl, tt))
