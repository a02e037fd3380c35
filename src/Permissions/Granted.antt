-- ===== src/Permissions/Granted.antt =====
-- pkg/permissions/permissions.go: what a registry allows, in terms of the calls made to it.
use vikram.Base.{
  String, Bool, true, false, ◌&&◌, ◌||◌, List, [], ◌∷◌, none, ◌≡◌, refl, sym, ap, ◌∙◌, arith, ◌=s=◌,
  str_eq_iff, any, Bool-cases, inl, inr,
}
use vikram.Base.Map.{Map, lookup, insert, Distinct, lookup-insert}
use vikram.Permissions.{
  Registry, new_registry, or_false, Call, freezes, sets, sets_all, freeze, set, set_all, insert_all,
  is_allowed, step, run, enabled, enabled_features, snapshot, copy_perms,
}

-- A call that enables the feature.
abbrev pub grants : String → Call → Bool
grants f freezes = false
grants f (sets g v) = (g =s= f) && v
grants f (sets_all new) = any (λ e. (e.0 =s= f) && e.1) new

insert_all-allowed :
    (f : String) (new perms : Map Bool)
    → or_false (lookup f (insert_all new perms)) ≡ true
    → (any (λ e. (e.0 =s= f) && e.1) new || or_false (lookup f perms)) ≡ true
unfolding insert_all
insert_all-allowed f [] perms h = ground (arith, h)
insert_all-allowed f ((g, v) ∷ new) perms h =
    ground (
      arith,
      insert_all-allowed f new (insert g v perms) h,
      ap or_false (lookup-insert g f v perms),
    )

step-allowed :
    (f : String) (c : Call) (r : Registry)
    → is_allowed f (step c r) ≡ true
    → (grants f c || is_allowed f r) ≡ true
unfolding step freeze set set_all is_allowed
step-allowed f freezes r h = h
step-allowed f (sets g v) r h = ground (arith, ap or_false (lookup-insert g f v r.perms))
step-allowed f (sets_all new) r h = ground (arith, insert_all-allowed f new r.perms)

run_from-allowed :
    (f : String) (cs : List Call) (r : Registry)
    → is_allowed f (run cs r) ≡ true
    → (any (grants f) cs || is_allowed f r) ≡ true
unfolding run
run_from-allowed f [] r h = h
run_from-allowed f (c ∷ cs) r h =
    ground (arith, run_from-allowed f cs (step c r) h, step-allowed f c r)

-- A feature that is allowed was enabled by some call made to the registry: nothing is allowed by
-- default.
pub run-is_allowed :
    (f : String) (cs : List Call)
    → is_allowed f (run cs new_registry) ≡ true
    → any (grants f) cs ≡ true
unfolding new_registry is_allowed lookup
run-is_allowed f cs h = ground (arith, run_from-allowed f cs new_registry h)

enabled-lookup :
    (f : String) (perms : Map Bool)
    → Distinct perms
    → any (λ g. g =s= f) (enabled perms) ≡ or_false (lookup f perms)
unfolding enabled lookup
enabled-lookup f [] d = refl
enabled-lookup f ((g, v) ∷ perms) d = elim (Bool-cases (g =s= f)) [
  | inl e ↦
      let gone : lookup f perms ≡ none =
        ap (λ x. lookup x perms) (sym ((str_eq_iff g f).0 e)) ∙ d.0 in
      ground (arith, enabled-lookup f perms d.1, ap or_false gone)
  | inr e ↦ ground (arith, enabled-lookup f perms d.1)
]

copy_perms-lookup : (f : String) (perms : Map Bool) → lookup f (copy_perms perms) ≡ lookup f perms
unfolding copy_perms lookup
copy_perms-lookup f [] = refl
copy_perms-lookup f ((g, v) ∷ perms) =
    lookup-insert g f v (copy_perms perms) ∙ ground (arith, copy_perms-lookup f perms)

-- `IsAllowed`, `EnabledFeatures` and `Snapshot` agree on every feature, if the sort neither adds nor
-- drops elements.
pub enabled_features-is_allowed :
    (sort : List String → List String)
    → ((p : String → Bool) (xs : List String) → any p (sort xs) ≡ any p xs)
    → (r : Registry) (f : String) → Distinct r.perms
    → (any (λ g. g =s= f) (enabled_features sort r) ≡ is_allowed f r)
      × (or_false (lookup f (snapshot r)) ≡ is_allowed f r)
unfolding enabled_features is_allowed snapshot
enabled_features-is_allowed sort keeps r f d = (
  keeps (λ g. g =s= f) (enabled r.perms) ∙ enabled-lookup f r.perms d,
  ap or_false (copy_perms-lookup f r.perms),
)
