-- ===== src/Locks/Examples.antt =====
-- Runs of pkg/locks/registry.go: two tasks and one file.
use vikram.Base.{◌≡◌, refl, ◌≢◌, true, false, List, [], ◌∷◌, arith, ne_by_test, String, ◌=s=◌}
use vikram.Base.Int.{pos}
use vikram.Base.Map.{lookup, insert, delete}
use vikram.Base.Result.{ok, err}
use vikram.Locks.{
  Registry, FileLock, Call, acquires, releases, ticks, stops, acquire, release, step, run,
  is_locked, already_locked, new_in_memory_registry,
}
use vikram.Locks.Invariant.{Inv, new-Inv, step-Inv}
use vikram.Locks.Exclusion.{acquire-acquire_other}

abbrev held : FileLock
held = record { path = "a.go"; task_id = "t1"; acquired = 10; expires_at = 30 }

abbrev one_lock : Registry
one_lock = record { locks = ("a.go", held) ∷ []; stopped = false }

t2_not_empty : ◌≢◌ {A = String} "t2" ""
unfolding ◌=s=◌
t2_not_empty = ne_by_test "t2" "" refl

path_not_empty : ◌≢◌ {A = String} "a.go" ""
unfolding ◌=s=◌
path_not_empty = ne_by_test "a.go" "" refl

t2_not_t1 : ◌≢◌ {A = String} "t2" "t1"
unfolding ◌=s=◌
t2_not_t1 = ne_by_test "t2" "t1" refl

one_lock_granted : acquire "t1" "a.go" (pos 20) 10 new_in_memory_registry ≡ ok one_lock
unfolding acquire new_in_memory_registry lookup insert ◌=s=◌
one_lock_granted = refl

one_lock-Inv : Inv one_lock
unfolding lookup step new_in_memory_registry acquire insert ◌=s=◌
one_lock-Inv = step-Inv new_in_memory_registry (acquires "t1" "a.go" (pos 20) 10) new-Inv

abbrev attempts : List Call
attempts = acquires "t2" "a.go" (pos 5) 12 ∷ releases "t2" "a.go" ∷ ticks 30 ∷ stops ∷ []

acquire-acquire_other_example :
    acquire "t2" "a.go" (pos 5) 30 (run one_lock attempts) ≡ err (already_locked "t1")
acquire-acquire_other_example =
    acquire-acquire_other "t1" "a.go" (pos 20) 10 new_in_memory_registry one_lock attempts "t2"
      (pos 5) 30 new-Inv one_lock_granted
      (
        (omega arith, λ e. absurd (t2_not_t1 e)),
        ((λ e. absurd (t2_not_t1 e)), (omega arith, (tt, tt))),
      )
      t2_not_empty path_not_empty refl t2_not_t1 (omega arith)

shown_locked : is_locked "a.go" 30 one_lock ≡ ok (true, "t1")
unfolding is_locked lookup ◌=s=◌
shown_locked = refl

released : release "t1" "a.go" one_lock ≡ ok new_in_memory_registry
unfolding release new_in_memory_registry lookup delete ◌=s=◌
released = refl

step-Inv_example : Inv (step one_lock (releases "t2" "a.go"))
step-Inv_example = step-Inv one_lock (releases "t2" "a.go") one_lock-Inv
