-- ===== src/Queue/Store.antt =====
-- pkg/queue/queue.go: the list of jobs under writes through a pointer and under filters.
use mathlib.Core.Bool.{Bool-set}
use mathlib.Core.List.{Mem, mem-cons, not-mem-nil}
use mathlib.Core.Logic.Or
use vikram.Base.{
  ℕ, suc, ◌≤◌, ◌<◌, Bool, true, ◌≡◌, refl, sym, subst, List, [], ◌∷◌, ◌++◌, arith, leb, ◌==◌, all,
  keep, Bool-cases, inl, inr,
}
use vikram.Queue.{Job, update}

module _ {P : Type 0} where
  -- The addresses of the jobs rise along the list from `lo` and stay below `next`.
  abbrev pub Rising : ℕ → ℕ → List (Job P) → Type 0
  Rising lo next [] = lo ≤ next
  Rising lo next (j ∷ js) = (lo ≤ j.ref) × Rising (suc j.ref) next js

  pub Rising-weaken :
      (lo lo' next : ℕ) (js : List (Job P)) → lo' ≤ lo → Rising lo next js → Rising lo' next js
  Rising-weaken lo lo' next [] h r = omega arith
  Rising-weaken lo lo' next (j ∷ js) h r = (omega arith, r.1)

  pub Rising-append :
      (lo next : ℕ) (js : List (Job P)) (j : Job P)
      → j.ref ≡ next
      → Rising lo next js
      → Rising lo (suc next) (js ++ j ∷ [])
  Rising-append lo next [] j e r = (omega arith, omega arith)
  Rising-append lo next (k ∷ js) j e r = (r.0, Rising-append (suc k.ref) next js j e r.1)

  pub Rising-update :
      (lo next ref : ℕ) (f : Job P → Job P) (js : List (Job P))
      → ((j : Job P) → (f j).ref ≡ j.ref)
      → Rising lo next js
      → Rising lo next (update ref f js)
  unfolding update
  Rising-update lo next ref f [] same r = r
  Rising-update lo next ref f (j ∷ js) same r = elim (Bool-cases (j.ref == ref)) [
    | inl e ↦ rw (e, same j) (r.0, Rising-update (suc j.ref) next ref f js same r.1)
    | inr e ↦ rw e (r.0, Rising-update (suc j.ref) next ref f js same r.1)
  ]

  pub Rising-keep :
      (lo next : ℕ) (p : Job P → Bool) (js : List (Job P))
      → Rising lo next js
      → Rising lo next (keep p js)
  Rising-keep lo next p [] r = r
  Rising-keep lo next p (j ∷ js) r = elim (Bool-cases (p j)) [
    | inl e ↦ rw e (r.0, Rising-keep (suc j.ref) next p js r.1)
    | inr e ↦
        rw e
          (Rising-keep lo next p js (Rising-weaken (suc j.ref) lo next js (omega (arith, r.0)) r.1))
  ]

  pub all-append-one :
      (p : Job P → Bool) (js : List (Job P)) (j : Job P)
      → all p js ≡ true
      → p j ≡ true
      → all p (js ++ j ∷ []) ≡ true
  all-append-one p [] j h g = ground arith
  all-append-one p (k ∷ js) j h g = ground (arith, all-append-one p js j)

  pub all-keep :
      (p r : Job P → Bool) (js : List (Job P)) → all p js ≡ true → all p (keep r js) ≡ true
  all-keep p r [] h = h
  all-keep p r (j ∷ js) h = ground (arith, all-keep p r js)

  pub all-update :
      (p : Job P → Bool) (ref : ℕ) (f : Job P → Job P) (js : List (Job P))
      → ((j : Job P) → p j ≡ true → p (f j) ≡ true)
      → all p js ≡ true
      → all p (update ref f js) ≡ true
  unfolding update
  all-update p ref f [] keeps h = h
  all-update p ref f (j ∷ js) keeps h = ground (arith, keeps j, all-update p ref f js keeps)

  -- Above all addresses of the list an update finds nothing.
  pub update_above :
      (lo next ref : ℕ) (f : Job P → Job P) (js : List (Job P))
      → Rising lo next js
      → ref < lo
      → update ref f js ≡ js
  unfolding update
  update_above lo next ref f [] r h = refl
  update_above lo next ref f (j ∷ js) r h =
      ground (arith, update_above (suc j.ref) next ref f js r.1)

  pub ref-ge :
      (lo next : ℕ) (js : List (Job P)) (j : Job P)
      → Rising lo next js
      → Mem j js
      → leb lo j.ref ≡ true
  ref-ge lo next [] j r m = absurd (not-mem-nil m)
  ref-ge lo next (k ∷ js) j r m =
      Or.elim (Bool-set _ _) (mem-cons.0 m) (λ e. rw e (ground (arith, r.0)))
        (λ n. ground (arith, r.0, ref-ge (suc k.ref) next js j r.1 n))

  -- The update of a stored job changes that job only.
  pub all-update_stored :
      (p : Job P → Bool) (lo next : ℕ) (f : Job P → Job P) (js : List (Job P)) (j : Job P)
      → Rising lo next js
      → Mem j js
      → all p js ≡ true
      → p (f j) ≡ true
      → all p (update j.ref f js) ≡ true
  unfolding update
  all-update_stored p lo next f [] j r m h g = absurd (not-mem-nil m)
  all-update_stored p lo next f (k ∷ js) j r m h g =
      Or.elim (Bool-set _ _) (mem-cons.0 m) (λ e. here e)
        (λ n. ground (
          arith,
          ref-ge (suc k.ref) next js j r.1 n,
          all-update_stored p (suc k.ref) next f js j r.1 n,
          h,
          g,
        ))
    where
      here : j ≡ k → all p (update j.ref f (k ∷ js)) ≡ true
      here e =
          subst (λ i. all p (update i.ref f (k ∷ js)) ≡ true) (sym e)
            (ground (
              arith,
              update_above (suc k.ref) next k.ref f js r.1,
              subst (λ i. p (f i) ≡ true) e g,
              h,
            ))
