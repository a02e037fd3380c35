-- ===== src/Permissions/Frozen.antt =====
-- pkg/permissions/permissions.go: a frozen registry.
use vikram.Base.{String, Bool, true, List, [], ◌∷◌, some, ◌≡◌, refl, sym, ap, ◌∙◌}
use vikram.Base.Map.{Map}
use vikram.Permissions.{
  Registry, Call, freezes, sets, sets_all, freeze, set, set_all, step, run, is_frozen_error,
}

step_frozen : (c : Call) (r : Registry) → r.frozen ≡ true → step c r ≡ r
unfolding step freeze set set_all
step_frozen freezes r h = ap (λ b. record r { frozen = b }) (sym h)
step_frozen (sets f v) r h = rw h
step_frozen (sets_all new) r h = rw h

run_frozen : (cs : List Call) (r : Registry) → r.frozen ≡ true → run cs r ≡ r
unfolding run
run_frozen [] r h = refl
run_frozen (c ∷ cs) r h = ap (run cs) (step_frozen c r h) ∙ run_frozen cs r h

-- Once the registry is frozen no calls whatever change it, and `Set` and `SetAll` return the error.
pub run-freeze :
    (cs : List Call) (r : Registry) (f : String) (v : Bool) (new : Map Bool)
    → (run cs (freeze r) ≡ freeze r)
      × (set f v (run cs (freeze r)) ≡ (freeze r, some is_frozen_error))
      × (set_all new (run cs (freeze r)) ≡ (freeze r, some is_frozen_error))
unfolding freeze set set_all
run-freeze cs r f v new =
    let same = run_frozen cs (freeze r) refl in (same, rw same refl, rw same refl)
