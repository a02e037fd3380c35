-- ===== src/Base/Map.antt =====
-- A Go map with string keys, as an association list. A Go map has no order, and iteration over one
-- is a walk over the list: statements about iteration hold for every list, that is for every order.
use vikram.Base.Tests.{◌=s=◌, str_eq_iff, str_eq_refl, if◌then◌else◌, Bool-cases}
use vikram.Base.Lists.{length}
use Prim.Native.Nat.{suc}
use Prim.Native.String.{String}
use mathlib.Core.Path.{◌≡◌, refl, sym, ap, ◌∙◌, subst}
use mathlib.Core.Bool.{Bool, true, false}
use mathlib.Core.List.{List, [], ◌∷◌, Mem, mem-cons_self, mem-cons_of_mem}
use mathlib.Core.Option.{Option, none, some}
use mathlib.Core.Logic.{inl, inr}
use native.Mathlib.Omega.{arith}

abbrev pub Map {ℓ} : Type ℓ → Type ℓ
Map V = List (String × V)

module _ {ℓ} {V : Type ℓ} where
  unfoldable pub lookup : String → Map V → Option V
  lookup k [] = none
  lookup k ((j, v) ∷ m) = if j =s= k then some v else lookup k m

  -- m[k] = v
  unfoldable pub insert : String → V → Map V → Map V
  insert k v [] = (k, v) ∷ []
  insert k v ((j, w) ∷ m) = if j =s= k then (k, v) ∷ m else (j, w) ∷ insert k v m

  -- delete(m, k)
  unfoldable pub delete : String → Map V → Map V
  delete k [] = []
  delete k ((j, w) ∷ m) = if j =s= k then delete k m else (j, w) ∷ delete k m

  -- A loop over the map that deletes the entries whose value fails a test.
  unfoldable pub retain : (V → Bool) → Map V → Map V
  retain p [] = []
  retain p ((j, w) ∷ m) = if p w then (j, w) ∷ retain p m else retain p m

  abbrev pub values : Map V → List V
  values [] = []
  values ((_, v) ∷ m) = v ∷ values m

  pub lookup-insert :
      (k j : String) (v : V) (m : Map V)
      → lookup j (insert k v m) ≡ (if k =s= j then some v else lookup j m)
  unfolding lookup insert
  lookup-insert k j v [] = refl
  lookup-insert k j v ((i, w) ∷ m) =
      ground (arith, str_eq_iff k j, str_eq_iff i k, str_eq_iff i j, lookup-insert k j v m)

  pub lookup-insert_self : (k : String) (v : V) (m : Map V) → lookup k (insert k v m) ≡ some v
  lookup-insert_self k v m = simp (lookup-insert, str_eq_refl)

  pub lookup-delete :
      (k j : String) (m : Map V) → lookup j (delete k m) ≡ (if k =s= j then none else lookup j m)
  unfolding lookup delete
  lookup-delete k j [] = ground arith
  lookup-delete k j ((i, w) ∷ m) =
      ground (arith, str_eq_iff k j, str_eq_iff i k, str_eq_iff i j, lookup-delete k j m)

  -- No key stands twice, as in any Go map.
  abbrev pub Distinct : Map V → Type ℓ
  Distinct [] = Unit
  Distinct ((j, w) ∷ m) = (lookup j m ≡ none) × Distinct m

  pub insert-Distinct : (k : String) (v : V) (m : Map V) → Distinct m → Distinct (insert k v m)
  unfolding insert lookup
  insert-Distinct k v [] d = (refl, tt)
  insert-Distinct k v ((j, w) ∷ m) d =
      ground
        (arith, str_eq_iff j k, str_eq_iff k j, insert-Distinct k v m d.1, lookup-insert k j v m)

  pub delete-Distinct : (k : String) (m : Map V) → Distinct m → Distinct (delete k m)
  unfolding delete
  delete-Distinct k [] d = tt
  delete-Distinct k ((j, w) ∷ m) d = ground (arith, delete-Distinct k m d.1, lookup-delete k j m)

  pub lookup-retain-none :
      (p : V → Bool) (j : String) (m : Map V) → lookup j m ≡ none → lookup j (retain p m) ≡ none
  unfolding lookup retain
  lookup-retain-none p j [] h = refl
  lookup-retain-none p j ((i, w) ∷ m) h = ground (arith, lookup-retain-none p j m)

  abbrev pub check : (V → Bool) → Option V → Option V
  check p none = none
  check p (some v) = if p v then some v else none

  pub lookup-retain :
      (p : V → Bool) (j : String) (m : Map V)
      → Distinct m
      → lookup j (retain p m) ≡ check p (lookup j m)
  unfolding lookup retain
  lookup-retain p j [] d = refl
  lookup-retain p j ((i, w) ∷ m) d =
      ground (arith, str_eq_iff i j, lookup-retain p j m d.1, lookup-retain-none p j m)

  pub retain-Distinct : (p : V → Bool) (m : Map V) → Distinct m → Distinct (retain p m)
  unfolding retain
  retain-Distinct p [] d = tt
  retain-Distinct p ((j, w) ∷ m) d =
      ground (arith, retain-Distinct p m d.1, lookup-retain-none p j m)

  pub mem-values : (k : String) (v : V) (m : Map V) → lookup k m ≡ some v → Mem v (values m)
  unfolding lookup
  mem-values k v [] h = absurd (cc)
  mem-values k v ((j, w) ∷ m) h = found (j =s= k) h (mem-values k v m)
    where
      found :
          (b : Bool)
          → (if b then some w else lookup k m) ≡ some v
          → (lookup k m ≡ some v → Mem v (values m))
          → Mem v (w ∷ values m)
      found true e rest = subst (λ x. Mem v (x ∷ values m)) (cc e) mem-cons_self
      found false e rest = mem-cons_of_mem w (rest e)

  -- A second write to a key replaces the first.
  pub insert-insert : (k : String) (v w : V) (m : Map V) → insert k v (insert k w m) ≡ insert k v m
  unfolding insert
  insert-insert k v w [] = rw (str_eq_refl k)
  insert-insert k v w ((j, u) ∷ m) = ground (arith, str_eq_refl k, insert-insert k v w m)

  pub length-insert :
      (k : String) (v : V) (m : Map V) → lookup k m ≡ none → length (insert k v m) ≡ suc (length m)
  unfolding insert lookup
  length-insert k v [] h = refl
  length-insert k v ((j, w) ∷ m) h = ground (arith, length-insert k v m)

  pub length-delete_missing :
      (k : String) (m : Map V) → lookup k m ≡ none → length (delete k m) ≡ length m
  unfolding delete lookup
  length-delete_missing k [] h = refl
  length-delete_missing k ((j, w) ∷ m) h = ground (arith, length-delete_missing k m)

  pub length-delete :
      (k : String) (v : V) (m : Map V)
      → Distinct m
      → lookup k m ≡ some v
      → suc (length (delete k m)) ≡ length m
  unfolding delete lookup
  length-delete k v [] d h = absurd (cc h)
  length-delete k v ((j, w) ∷ m) d h = elim (Bool-cases (j =s= k)) [
    | inl e ↦
        let gone : lookup k m ≡ none = ap (λ x. lookup x m) (sym ((str_eq_iff j k).0 e)) ∙ d.0 in
        ground (arith, length-delete_missing k m gone)
    | inr e ↦ ground (arith, length-delete k v m d.1)
  ]
