-- ===== src/StateStore/Examples.antt =====
-- Two setters of pkg/state/state.go, the second while the first is writing.
use vikram.Base.{true, List, [], ◌∷◌, none, some, ◌≡◌, refl}
use vikram.StateStore.{Manager, absent, content, empty_state, set_last_channel, set_last_chat_id}
use vikram.StateStore.Writes.{
  Step, sets_channel, sets_chat_id, takes_file, ends_write, run, Current, run-Current_latest,
}

-- A write of the empty state is under way.
abbrev manager : Manager
manager = record {
  state = empty_state;
  waiting = none;
  writing = some empty_state;
  state_file = absent;
}

abbrev steps : List Step
steps =
    takes_file
    ∷ ends_write true
    ∷ takes_file
    ∷ sets_chat_id "7" 2
    ∷ ends_write true
    ∷ takes_file
    ∷ ends_write true
    ∷ []

run-Current_latest_example : Current (run (sets_channel "cli" 1 ∷ steps) manager)
run-Current_latest_example =
    run-Current_latest (sets_channel "cli" 1) steps manager _ refl refl refl

both_written :
    (run (sets_channel "cli" 1 ∷ steps) manager).state_file
    ≡ content (record { last_channel = "cli"; last_chat_id = "7"; timestamp = 2; users = none })
unfolding run set_last_channel set_last_chat_id
both_written = refl
