-- ===== src/Session/Copies.antt =====
-- pkg/session/manager.go, deepCopyMessages: a copy has the same contents as its original.
use vikram.Base.{◌≡◌, refl, List, [], ◌∷◌, Option, none, some, map}
use vikram.Base.Map.{Map}
use vikram.Providers.{Message, ToolCall}
use vikram.Session.{copy_arguments, copy_call, deep_copy_messages}

module _ {V : Type 0} where
  map_pairs : (m : Map V) → map (λ kv. (kv.0, kv.1)) m ≡ m
  map_pairs [] = refl
  map_pairs (kv ∷ m) = rw (map_pairs m)

  copy_arguments_lem : (args : Option (Map V)) → copy_arguments args ≡ args
  unfolding copy_arguments
  copy_arguments_lem none = refl
  copy_arguments_lem (some args) = rw (map_pairs args)

  map-copy_call : (tcs : List (ToolCall V)) → map copy_call tcs ≡ tcs
  unfolding copy_call
  map-copy_call [] = refl
  map-copy_call (tc ∷ tcs) = simp (copy_arguments_lem, map-copy_call tcs)

  -- Every field of every message, call and argument is copied.
  pub deep_copy_messages_lem : (ms : List (Message V)) → deep_copy_messages ms ≡ ms
  unfolding deep_copy_messages
  deep_copy_messages_lem [] = refl
  deep_copy_messages_lem (m ∷ ms) = simp (map-copy_call, deep_copy_messages_lem ms)
