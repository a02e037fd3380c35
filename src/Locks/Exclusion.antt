-- ===== src/Locks/Exclusion.antt =====
-- pkg/locks/registry.go: a granted lock keeps other tasks out until it expires.
use vikram.Base.{
  ◌∙◌, ◌≤◌, String, ◌≡◌, refl, ◌≢◌, true, false, List, [], ◌∷◌, some, arith, ◌=s=◌, str_eq_iff,
  str_ne, if◌then◌else◌, ap, subst,
}
use vikram.Base.Int.{ltb_ℤ, pos}
use vikram.Base.Map.{lookup, lookup-insert, lookup-insert_self, lookup-delete, lookup-retain}
use vikram.Base.Result.{Result, ok, err, settle}
use vikram.Base.Time.{Time, Duration, add}
use vikram.Locks.{
  Registry, FileLock, Call, acquires, releases, ticks, stops, acquire, release, prune_loop, admit,
  holds, prune_expired, stop, step, run, fresh_lock, live, already_locked, closed_twice, Error,
}
use vikram.Locks.Invariant.{Inv, acquire_cases, step-Inv}

-- `task_id` has `path`, and has it until `until` at least.
pub record Holds (task_id path : String) (until : Time) (r : Registry) : Type 0 where
  pub lock : FileLock
  pub found : lookup path r.locks ≡ some lock
  pub owner : lock.task_id ≡ task_id
  pub lasts : until ≤ lock.expires_at

-- A call made by `until` that is no call of the holder on its own path.
abbrev pub Foreign : String → String → Time → Call → Type 0
Foreign t p until (acquires t' p' ttl now) = (now ≤ until) × (t' ≡ t → p' ≢ p)
Foreign t p until (releases t' p') = t' ≡ t → p' ≢ p
Foreign t p until (ticks now) = now ≤ until
Foreign t p until stops = Unit {0}

abbrev pub AllForeign : String → String → Time → List Call → Type 0
AllForeign t p until [] = Unit {0}
AllForeign t p until (c ∷ cs) = Foreign t p until c × AllForeign t p until cs

acquire-Holds_other :
    (t p t' p' : String) (ttl : Duration) (now until : Time) (r : Registry)
    → now ≤ until
    → (t' ≡ t → p' ≢ p)
    → Holds t p until r
    → Holds t p until (settle r (acquire t' p' ttl now r))
unfolding admit
acquire-Holds_other t p t' p' ttl now until r le other h =
    acquire_cases (Holds t p until) t' p' ttl now r h λ admitted _. record {
      lock = h.lock;
      found = lookup-insert p' p (fresh_lock t' p' ttl now) r.locks ∙ kept admitted;
      owner = h.owner;
      lasts = h.lasts;
    }
  where
    kept :
        admit t' now (lookup p' r.locks) ≡ ok tt
        → (if p' =s= p then some (fresh_lock t' p' ttl now) else lookup p r.locks) ≡ some h.lock
    kept a =
        ground (
          arith,
          a,
          h.found,
          h.owner,
          h.lasts,
          str_eq_iff p' p,
          str_eq_iff h.lock.task_id t',
          other,
        )

release-Holds_other :
    (t p t' p' : String) (until : Time) (r : Registry)
    → (t' ≡ t → p' ≢ p)
    → Holds t p until r
    → Holds t p until (settle r (release t' p' r))
unfolding release holds
release-Holds_other t p t' p' until r other h = record {
  lock = h.lock;
  found = ground (
    arith,
    h.found,
    h.owner,
    lookup-delete p' p r.locks,
    str_eq_iff p' p,
    str_eq_iff h.lock.task_id t',
    other,
  );
  owner = h.owner;
  lasts = h.lasts;
}

prune-Holds :
    (t p : String) (now until : Time) (r : Registry)
    → Inv r
    → now ≤ until
    → Holds t p until r
    → Holds t p until (prune_expired now r)
unfolding prune_expired
prune-Holds t p now until r v le h = record {
  lock = h.lock;
  found = ground (arith, h.found, h.lasts, lookup-retain (live now) p r.locks v.distinct);
  owner = h.owner;
  lasts = h.lasts;
}

-- One call by others, made in time, leaves the lock where it is.
step-Holds :
    (t p : String) (until : Time) (r : Registry) (c : Call)
    → Inv r
    → Foreign t p until c
    → Holds t p until r
    → Holds t p until (step r c)
unfolding step prune_loop stop
step-Holds t p until r (acquires t' p' ttl now) v f h =
    acquire-Holds_other t p t' p' ttl now until r f.0 f.1 h
step-Holds t p until r (releases t' p') v f h = release-Holds_other t p t' p' until r f h
step-Holds t p until r (ticks now) v f h =
    elim r.stopped as (λ b. Holds t p until (if b then r else prune_expired now r)) [
      | true ↦ h
      | false ↦ prune-Holds t p now until r v f h
    ]
step-Holds t p until r stops v f h =
    elim r.stopped
      as (λ b.
        Holds t p until
          (settle r (if b then err closed_twice else ok (record r { stopped = true })))) [
            | true ↦ h
            | false ↦ record { lock = h.lock; found = h.found; owner = h.owner; lasts = h.lasts }
          ]

run-Holds :
    (t p : String) (until : Time) (r : Registry) (cs : List Call)
    → Inv r
    → AllForeign t p until cs
    → Holds t p until r
    → Holds t p until (run r cs)
unfolding run
run-Holds t p until r [] v f h = h
run-Holds t p until r (c ∷ cs) v f h =
    run-Holds t p until (step r c) cs (step-Inv r c v) f.1 (step-Holds t p until r c v f.0 h)

-- A granted lock is held until its time to live is over.
granted-Holds :
    (t p : String) (ttl : Duration) (now : Time) (r r' : Registry)
    → acquire t p ttl now r ≡ ok r'
    → Holds t p (add now ttl) r'
unfolding acquire
granted-Holds t p ttl now r r' e = record {
  lock = fresh_lock t p ttl now;
  found = ground (arith, lookup-insert_self p (fresh_lock t p ttl now) r.locks);
  owner = refl;
  lasts = omega arith;
}

Holds-excludes :
    (t p t' : String) (ttl : Duration) (now until : Time) (r : Registry)
    → t' ≢ ""
    → p ≢ ""
    → ltb_ℤ (pos 0) ttl ≡ true
    → t' ≢ t
    → now ≤ until
    → Holds t p until r
    → acquire t' p ttl now r ≡ err (already_locked t)
unfolding acquire admit
Holds-excludes t p t' ttl now until r ht hp hd ne le h =
    rw (str_ne t' "" ht, str_ne p "" hp, hd, h.found, refused) (ap err (ap already_locked h.owner))
  where
    refused : admit t' now (some h.lock) ≡ err (already_locked h.lock.task_id)
    refused = ground (arith, h.owner, h.lasts, str_eq_iff h.lock.task_id t')

-- Once `Acquire` has granted `path` to `t` for `ttl`, then after any calls by others, made in any
-- order up to the end of that time, `Acquire` by another task with valid arguments is refused with
-- the name of `t`, as long as the time is not over.
pub acquire-acquire_other :
    (t p : String) (ttl : Duration) (now : Time) (r r' : Registry) (cs : List Call) (t' : String)
    (ttl' : Duration) (later : Time)
    → Inv r
    → acquire t p ttl now r ≡ ok r'
    → AllForeign t p (add now ttl) cs
    → t' ≢ ""
    → p ≢ ""
    → ltb_ℤ (pos 0) ttl' ≡ true
    → t' ≢ t
    → later ≤ add now ttl
    → acquire t' p ttl' later (run r' cs) ≡ err (already_locked t)
unfolding step
acquire-acquire_other t p ttl now r r' cs t' ttl' later v e f ht hp hd ne le =
    Holds-excludes t p t' ttl' later (add now ttl) (run r' cs) ht hp hd ne le
      (run-Holds t p (add now ttl) r' cs after_Inv f (granted-Holds t p ttl now r r' e))
  where
    after_Inv : Inv r'
    after_Inv =
        subst (λ (m : Result Error Registry). Inv (settle r m)) e
          (step-Inv r (acquires t p ttl now) v)
