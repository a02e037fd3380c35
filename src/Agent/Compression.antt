-- ===== src/Agent/Compression.antt =====
-- pkg/agent/context.go and pkg/agent/loop.go: what is left of a history that is compressed.
use vikram.Base.{
  ℕ, zero, suc, ◌+◌, ◌-◌, ◌/◌, String, Bool, true, false, not, ◌&&◌, ◌||◌, ◌≡◌, refl, sym, subst,
  ap, ◌∙◌, List, [], ◌∷◌, none, Option-cases, Bool-cases, inl, inr, ◌=s=◌, str_eq_iff,
  if◌then◌else◌, length, drop, keep, leb, ltb, arith,
}
use vikram.Base.Time.{Time}
use vikram.Base.Map.{lookup}
use vikram.Providers.{Message}
use vikram.Session.{SessionManager, get_history}
use vikram.Session.Histories.{get_history-set_history}
use vikram.Agent.{
  Go, keep_recent_observations, elide, compress_from, compress_history, elided_observation,
  elided_file, compression_note, force_compression,
}

false_is_true : {A : Type 0} → true ≡ false → A
false_is_true h = ground arith

module _ {V : Type 0} (go : Go) where
  abbrev pub is_assistant : Message V → Bool
  is_assistant m = m.role =s= "assistant"

  -- Of a message that is not the assistant's nothing is kept, whichever note takes its place.
  chosen :
      (tool user observation file : Bool) (x y m : Message V) (ms : List (Message V))
      → is_assistant x ≡ false
      → is_assistant y ≡ false
      → ((tool || user) ≡ true → is_assistant m ≡ false)
      → keep is_assistant
          ((if tool || user then if observation then x else if file then y else m else m) ∷ ms)
        ≡ keep is_assistant (m ∷ ms)
  chosen true user true file x y m ms hx hy hm = ground (arith, hm refl)
  chosen true user false true x y m ms hx hy hm = ground (arith, hm refl)
  chosen true user false false x y m ms hx hy hm = refl
  chosen false true true file x y m ms hx hy hm = ground (arith, hm refl)
  chosen false true false true x y m ms hx hy hm = ground (arith, hm refl)
  chosen false true false false x y m ms hx hy hm = refl
  chosen false false observation file x y m ms hx hy hm = refl

  not_assistant :
      (m : Message V) → ((m.role =s= "tool") || (m.role =s= "user")) ≡ true → is_assistant m ≡ false
  unfolding ◌=s=◌
  not_assistant m h = elim (Bool-cases (m.role =s= "tool")) [
    | inl t ↦ subst (λ r. (r =s= "assistant") ≡ false) (sym ((str_eq_iff m.role "tool").0 t)) refl
    | inr f ↦
        let user : (m.role =s= "user") ≡ true = ap (λ b. b || (m.role =s= "user")) (sym f) ∙ h in
        subst (λ r. (r =s= "assistant") ≡ false) (sym ((str_eq_iff m.role "user").0 user)) refl
  ]

  elide-assistant :
      (m : Message V) (ms : List (Message V))
      → keep is_assistant (elide go m ∷ ms) ≡ keep is_assistant (m ∷ ms)
  unfolding elide ◌=s=◌
  elide-assistant m ms =
      chosen (m.role =s= "tool") (m.role =s= "user") (go.has_prefix m.content "Observation:")
        (go.contains m.content "File:" && ltb 500 (go.byte_length m.content))
        (elided_observation go m) (elided_file go m) m ms refl refl (not_assistant m)

  compress_from_lem :
      (old : ℕ) (ms : List (Message V))
      → (length (compress_from go old ms) ≡ length ms)
        × (drop old (compress_from go old ms) ≡ drop old ms)
        × (keep is_assistant (compress_from go old ms) ≡ keep is_assistant ms)
  unfolding compress_from
  compress_from_lem zero [] = (refl, refl, refl)
  compress_from_lem (suc old) [] = (refl, refl, refl)
  compress_from_lem zero (m ∷ ms) = (refl, refl, refl)
  compress_from_lem (suc old) (m ∷ ms) =
      let (same_length, same_end, same_answers) = compress_from_lem old ms in
      (
        omega arith,
        same_end,
        elide-assistant m (compress_from go old ms)
            ∙ ap (λ z. if is_assistant m then m ∷ z else z) same_answers,
      )

  -- The compressed history has as many messages as the history; the last five are the same, and so are
  -- all messages of the assistant, in their order.
  pub compress_history_lem :
      (history : List (Message V))
      → (length (compress_history go history) ≡ length history)
        × (drop (length history - keep_recent_observations) (compress_history go history)
            ≡ drop (length history - keep_recent_observations) history)
        × (keep is_assistant (compress_history go history) ≡ keep is_assistant history)
  unfolding compress_history
  compress_history_lem history =
      elim (Bool-cases (leb (length history) (keep_recent_observations + 2))) [
        | inl t ↦ rw t (refl, refl, refl)
        | inr f ↦ rw f (compress_from_lem (length history - keep_recent_observations) history)
      ]

  history-none :
      (key : String) (sm : SessionManager V)
      → lookup key sm.sessions ≡ none
      → get_history key sm ≡ []
  unfolding get_history
  history-none key sm e = rw (e, get_history) refl

  -- After the forced compression a history of more than four messages is a note followed by the history
  -- less its first half, rounded down; a shorter one and the other sessions' are as they were.
  pub get_history-force_compression :
      (key other : String) (now : Time) (sm : SessionManager V)
      → let history = get_history key sm in
        get_history other (force_compression go key now sm) ≡ (
          if not (leb (length history) 4) && (key =s= other)
          then compression_note go (length history / 2) ∷ drop (length history / 2) history
          else get_history other sm)
  unfolding force_compression
  get_history-force_compression key other now sm =
      let history = get_history key sm in
      elim (Bool-cases (leb (length history) 4)) [
        | inl t ↦ rw t refl
        | inr f ↦ elim (Option-cases (lookup key sm.sessions)) [
          | inl e ↦ false_is_true (ap (λ h. leb (length h) 4) (sym (history-none key sm e)) ∙ f)
          | inr (s, e) ↦ rw f (get_history-set_history key other _ now sm s e)
        ]
      ]
