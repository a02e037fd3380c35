-- ===== src/Locks/Invariant.antt =====
-- pkg/locks/registry.go: what holds of the registry after every call.
use vikram.Base.{◌≤◌, String, ◌≡◌, ◌=s=◌, not, true, some, arith, str_eq_iff}
use vikram.Base.Map.{
  Distinct, lookup, insert, lookup-insert, lookup-delete, lookup-retain, insert-Distinct,
  delete-Distinct, retain-Distinct,
}
use vikram.Base.Int.{pos, ltb_ℤ}
use vikram.Base.Result.{ok, settle, settle-guard, settle->>=}
use vikram.Base.Time.{Time, Duration, add}
use vikram.Locks.{
  Registry, FileLock, fresh_lock, live, admit, task_id_required, path_required, ttl_not_positive,
  Call, acquires, releases, ticks, stops, acquire, release, prune_loop, prune_expired, stop, step,
  new_in_memory_registry,
}

-- One entry for each path, under the path that the entry names; no lock expires before it starts.
pub record Inv (r : Registry) : Type 0 where
  pub distinct : Distinct r.locks
  pub keyed : (p : String) (l : FileLock) → lookup p r.locks ≡ some l → l.path ≡ p
  pub ordered : (p : String) (l : FileLock) → lookup p r.locks ≡ some l → l.acquired ≤ l.expires_at

pub new-Inv : Inv new_in_memory_registry
unfolding new_in_memory_registry lookup
new-Inv = record { distinct = tt; keyed = λ p l h. ground arith; ordered = λ p l h. ground arith }

-- `Acquire` fails, or it is admitted and stores one entry with a positive time to live.
pub acquire_cases :
    (P : Registry → Type 0) (t p : String) (ttl : Duration) (now : Time) (r : Registry)
    → P r
    → (admit t now (lookup p r.locks) ≡ ok tt
        → now ≤ add now ttl
        → P (record r { locks = insert p (fresh_lock t p ttl now) r.locks }))
    → P (settle r (acquire t p ttl now r))
unfolding acquire
acquire_cases P t p ttl now r failed stored =
    settle-guard P r (not (t =s= "")) task_id_required _ failed λ _.
      settle-guard P r (not (p =s= "")) path_required _ failed λ _.
        settle-guard P r (ltb_ℤ (pos 0) ttl) ttl_not_positive _ failed λ positive.
          settle->>= P r (admit t now (lookup p r.locks)) _ failed
            λ _ admitted. stored admitted (later ttl positive)
  where
    later : (d : Duration) → ltb_ℤ (pos 0) d ≡ true → now ≤ add now d
    later d h = ground arith

acquire-Inv :
    (t p : String) (ttl : Duration) (now : Time) (r : Registry)
    → Inv r
    → Inv (settle r (acquire t p ttl now r))
acquire-Inv t p ttl now r v = acquire_cases Inv t p ttl now r v λ _ le. record {
  distinct = insert-Distinct p (fresh_lock t p ttl now) r.locks v.distinct;
  keyed = λ q l h.
      ground
        (arith, v.keyed q l, lookup-insert p q (fresh_lock t p ttl now) r.locks, str_eq_iff p q);
  ordered =
      λ q l h. ground (arith, v.ordered q l, lookup-insert p q (fresh_lock t p ttl now) r.locks);
}

release-Inv : (t p : String) (r : Registry) → Inv r → Inv (settle r (release t p r))
unfolding release
release-Inv t p r v = record {
  distinct = ground (arith, delete-Distinct p r.locks v.distinct);
  keyed = λ q l h. ground (arith, v.keyed q l, lookup-delete p q r.locks);
  ordered = λ q l h. ground (arith, v.ordered q l, lookup-delete p q r.locks);
}

prune_expired-Inv : (now : Time) (r : Registry) → Inv r → Inv (prune_expired now r)
unfolding prune_expired
prune_expired-Inv now r v = record {
  distinct = retain-Distinct (live now) r.locks v.distinct;
  keyed = λ q l h. ground (arith, v.keyed q l, lookup-retain (live now) q r.locks v.distinct);
  ordered = λ q l h. ground (arith, v.ordered q l, lookup-retain (live now) q r.locks v.distinct);
}

-- Every call keeps the registry well formed, whether it succeeds or fails.
pub step-Inv : (r : Registry) (c : Call) → Inv r → Inv (step r c)
unfolding step prune_loop stop
step-Inv r (acquires t p ttl now) v = acquire-Inv t p ttl now r v
step-Inv r (releases t p) v = release-Inv t p r v
step-Inv r (ticks now) v = ground (arith, prune_expired-Inv now r v)
step-Inv r stops v = ground (arith, v)
