-- ===== src/Locks/Views.antt =====
-- pkg/locks/registry.go: what `IsLocked`, `Query`, `Release` and the pruning loop show of the locks.
use mathlib.Core.List.{Mem}
use vikram.Base.{
  ◌≤◌, String, ◌≡◌, refl, ◌≢◌, ◌↔◌, Bool, true, Option, some, none, arith, ◌=s=◌, not, ◌&&◌,
  str_eq_iff, str_ne, str_eq_refl, if◌then◌else◌, keep, mem-keep, keep_of_mem,
}
use vikram.Base.Int.{ltb_ℤ, pos}
use vikram.Base.Map.{lookup, insert, lookup-delete, lookup-retain, values, mem-values, check}
use vikram.Base.Result.{ok, err}
use vikram.Base.Time.{Time, Duration, before}
use vikram.Locks.{
  Registry, FileLock, acquire, release, admit, holds, holder, prune_expired, fresh_lock, live,
  already_locked, is_locked, query, not_locked,
}
use vikram.Locks.Invariant.{Inv}

admit-holder :
    (t : String) (now : Time) (o : Option FileLock)
    → admit t now o ≡ (
        if (holder now o).0 && not ((holder now o).1 =s= t)
        then err (already_locked (holder now o).1)
        else ok tt)
unfolding admit holder
admit-holder t now none = refl
admit-holder t now (some l) = ground arith

-- For valid arguments what `IsLocked` shows at a time decides what `Acquire` does at that time: it is
-- refused, with the name of the holder, if the path is shown locked by another task, and otherwise
-- it stores a fresh lock.
pub acquire-is_locked :
    (t p : String) (ttl : Duration) (now : Time) (r : Registry) {locked : Bool} {by : String}
    → t ≢ ""
    → p ≢ ""
    → ltb_ℤ (pos 0) ttl ≡ true
    → is_locked p now r ≡ ok (locked, by)
    → acquire t p ttl now r ≡ (
        if locked && not (by =s= t)
        then err (already_locked by)
        else ok (record r { locks = insert p (fresh_lock t p ttl now) r.locks }))
unfolding acquire is_locked
acquire-is_locked t p ttl now r {locked} {by} ht hp hd shown =
    rw (str_ne t "" ht, str_ne p "" hp, hd)
      (ground (arith, admit-holder t now (lookup p r.locks), str_ne p "" hp))

-- A release that succeeds was made by the task under whose name the path was stored; it frees the
-- path, leaves every other path as it was, and cannot be repeated.
pub release_lem :
    (t p : String) (r : Registry) {r' : Registry}
    → release t p r ≡ ok r'
    → ((l : FileLock) × (lookup p r.locks ≡ some l) × (l.task_id ≡ t))
      × (release t p r' ≡ err not_locked)
      × ((q : String) → lookup q r'.locks ≡ (if p =s= q then none else lookup q r.locks))
unfolding release holds
release_lem t p r {r'} e = (
  owned (lookup p r.locks) (ground arith),
  ground (arith, lookup-delete p p r.locks, str_eq_refl p),
  λ q. ground (arith, lookup-delete p q r.locks),
)
  where
    owned :
        (o : Option FileLock) → holds t o ≡ ok tt → (l : FileLock) × (o ≡ some l) × (l.task_id ≡ t)
    owned none h = absurd (cc h)
    owned (some l) h = (l, refl, ground (arith, str_eq_iff l.task_id t))

-- Pruning at `now` changes what `IsLocked` shows of no path, at no time from `now` on.
pub is_locked-prune_expired :
    (p : String) (now later : Time) (r : Registry)
    → Inv r
    → now ≤ later
    → is_locked p later (prune_expired now r) ≡ is_locked p later r
unfolding is_locked prune_expired
is_locked-prune_expired p now later r v le =
    rw (lookup-retain (live now) p r.locks v.distinct, still (lookup p r.locks))
  where
    still : (o : Option FileLock) → holder later (check (live now) o) ≡ holder later o
    still none = refl
    still (some l) = ground arith

-- `Query` lists a stored lock exactly if `IsLocked` shows its path as held by its task and its time
-- does not end at this very moment, at which `IsLocked` still shows it.
pub query-is_locked :
    (p : String) (now : Time) (r : Registry) (l : FileLock)
    → p ≢ ""
    → lookup p r.locks ≡ some l
    → Mem l (query now r) ↔ ((is_locked p now r ≡ ok (true, l.task_id)) × (now ≢ l.expires_at))
unfolding query is_locked holder
query-is_locked p now r l hp e = (
  λ m. shown (before-expiry m),
  λ s.
      mem-keep (λ k. before now k.expires_at) l (values r.locks) (mem-values p l r.locks e)
        (ground (arith, s.0, s.1, str_ne p "" hp, e)),
)
  where
    before-expiry :
        Mem l (keep (λ k. before now k.expires_at) (values r.locks))
        → before now l.expires_at ≡ true
    before-expiry m = keep_of_mem _ l (values r.locks) m

    shown :
        before now l.expires_at ≡ true
        → (is_locked p now r ≡ ok (true, l.task_id)) × (now ≢ l.expires_at)
    shown h = (ground (arith, h, str_ne p "" hp, e), ground (arith, h))
