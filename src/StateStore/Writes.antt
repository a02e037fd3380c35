-- ===== src/StateStore/Writes.antt =====
-- pkg/state/state.go: the file after setters that overlap.
use vikram.Base.{
  String, Bool, true, false, List, [], ◌∷◌, Option, none, some, ◌≡◌, refl, ap, all, arith,
}
use vikram.Base.Time.{Time}
use vikram.StateStore.{
  State, Manager, StateFile, content, begin_write, take_file, end_write, set_last_channel,
  set_last_chat_id, set_user_state, remove_user,
}

-- The setters, and the two steps after each of them.
pub data Step : Type 0 where
  sets_channel : String → Time → Step
  sets_chat_id : String → Time → Step
  sets_user : String → String → String → String → Time → Step
  removes_user : String → Time → Step
  takes_file : Step
  ends_write : Bool → Step

abbrev pub changed : Step → State → Option State
changed (sets_channel c now) st = some (set_last_channel c now st)
changed (sets_chat_id c now) st = some (set_last_chat_id c now st)
changed (sets_user k c i s now) st = some (set_user_state k c i s now st)
changed (removes_user k now) st = remove_user k now st
changed takes_file st = none
changed (ends_write saved) st = none

pub step : Step → Manager → Manager
unfolding begin_write take_file end_write
step takes_file m = take_file m.waiting m.writing m
step (ends_write saved) m = end_write saved m.writing m
step (sets_channel c now) m = begin_write m.waiting (changed (sets_channel c now) m.state) m
step (sets_chat_id c now) m = begin_write m.waiting (changed (sets_chat_id c now) m.state) m
step (sets_user k c i s now) m = begin_write m.waiting (changed (sets_user k c i s now) m.state) m
step (removes_user k now) m = begin_write m.waiting (changed (removes_user k now) m.state) m

unfoldable pub run : List Step → Manager → Manager
unfolding step
run [] m = m
run (c ∷ cs) m = run cs (step c m)

-- Whether the step is not the end of a write that fails.
abbrev pub not_failed : Step → Bool
not_failed takes_file = true
not_failed (ends_write saved) = saved
not_failed (sets_channel c now) = true
not_failed (sets_chat_id c now) = true
not_failed (sets_user k c i s now) = true
not_failed (removes_user k now) = true

-- The newest of what waits, what is written and what the file has is the state in memory.
unfoldable pub Newest : Option State → Option State → State → StateFile → Type 0
Newest (some d) writing st file = d ≡ st
Newest none (some d) st file = d ≡ st
Newest none none st file = file ≡ content st

unfoldable pub Current : Manager → Type 0
unfolding Newest
Current m = Newest m.waiting m.writing m.state m.state_file

begin-Current :
    (waiting next : Option State) (m : Manager)
    → m.waiting ≡ waiting
    → Current m
    → Current (begin_write waiting next m)
unfolding begin_write Current Newest
begin-Current (some w) next m e h = h
begin-Current none none m e h = h
begin-Current none (some st) m e h = refl

take-Newest :
    (waiting writing : Option State) (m : Manager)
    → m.waiting ≡ waiting
    → m.writing ≡ writing
    → Newest waiting writing m.state m.state_file
    → Current (take_file waiting writing m)
unfolding take_file Current Newest
take-Newest (some st) none m e f h = h
take-Newest (some st) (some w) m e f h = rw e h
take-Newest none none m e f h = rw (e, f) h
take-Newest none (some w) m e f h = rw (e, f) h

end-Newest :
    (waiting writing : Option State) (m : Manager)
    → m.waiting ≡ waiting
    → m.writing ≡ writing
    → Newest waiting writing m.state m.state_file
    → Current (end_write true writing m)
unfolding end_write Current Newest
end-Newest (some st) none m e f h = rw e h
end-Newest (some st) (some w) m e f h = rw e h
end-Newest none none m e f h = rw (e, f) h
end-Newest none (some w) m e f h = rw e (ap content h)

step-Current : (c : Step) (m : Manager) → not_failed c ≡ true → Current m → Current (step c m)
unfolding step Current
step-Current takes_file m ok h = take-Newest m.waiting m.writing m refl refl h
step-Current (ends_write false) m ok h = absurd (cc ok)
step-Current (ends_write true) m ok h = end-Newest m.waiting m.writing m refl refl h
step-Current (sets_channel c now) m ok h = begin-Current m.waiting _ m refl h
step-Current (sets_chat_id c now) m ok h = begin-Current m.waiting _ m refl h
step-Current (sets_user k c i s now) m ok h = begin-Current m.waiting _ m refl h
step-Current (removes_user k now) m ok h = begin-Current m.waiting _ m refl h

run-Current :
    (cs : List Step) (m : Manager) → all not_failed cs ≡ true → Current m → Current (run cs m)
unfolding run
run-Current [] m ok h = h
run-Current (c ∷ cs) m ok h =
    run-Current cs (step c m) (ground (arith, ok)) (step-Current c m (ground (arith, ok)) h)

begun-Current :
    (waiting next : Option State) (m : Manager) (st : State)
    → waiting ≡ none
    → next ≡ some st
    → Current (begin_write waiting next m)
unfolding begin_write Current Newest
begun-Current none (some st) m s e f = refl
begun-Current none none m s e f = absurd (cc f)
begun-Current (some w) next m s e f = absurd (cc e)

setter-Current :
    (c : Step) (m : Manager) (st : State)
    → m.waiting ≡ none
    → changed c m.state ≡ some st
    → Current (step c m)
unfolding step
setter-Current takes_file m st e f = absurd (cc f)
setter-Current (ends_write saved) m st e f = absurd (cc f)
setter-Current (sets_channel c now) m st e f = begun-Current m.waiting _ m st e f
setter-Current (sets_chat_id c now) m st e f = begun-Current m.waiting _ m st e f
setter-Current (sets_user k c i s now) m st e f = begun-Current m.waiting _ m st e f
setter-Current (removes_user k now) m st e f = begun-Current m.waiting _ m st e f

-- Whatever happened before (also writes that failed), once a setter has changed the state, and none
-- of the writes that end after it fails, then after any steps of any setters the newest of what
-- waits for the file, what is being written and what the file holds is the state in memory: when no
-- write is under way, the file holds the state.
pub run-Current_latest :
    (c : Step) (cs : List Step) (m : Manager) (st : State)
    → m.waiting ≡ none
    → changed c m.state ≡ some st
    → all not_failed cs ≡ true
    → Current (run (c ∷ cs) m)
unfolding run
run-Current_latest c cs m st free some_change ok =
    run-Current cs (step c m) ok (setter-Current c m st free some_change)
