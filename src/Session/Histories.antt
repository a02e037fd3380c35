-- ===== src/Session/Histories.antt =====
-- pkg/session/manager.go: what the methods do to the histories, which are read by `get_history`.
use mathlib.Core.List.{append-nil}
use mathlib.Core.Option
use mathlib.Core.Path.{fun_ext}
use vikram.Base.{
  ◌-◌, ◌≡◌, refl, ap, subst, ◌∙◌, List, [], ◌∷◌, ◌++◌, Option, none, some, String, arith, ◌=s=◌,
  str_eq_iff, if◌then◌else◌, length, drop_all, drop_none, Bool-cases, inl, inr, Option-cases,
}
use vikram.Base.Int.{ℤ, pos_part}
use vikram.Base.Map.{lookup, lookup-insert, lookup-insert_self, insert-insert}
use vikram.Base.Time.{Time}
use vikram.Providers.{Message}
use vikram.Session.{
  Session, SessionManager, deep_copy_messages, store, on_session, or_fresh, truncate, summarize,
  get_history, add_full_message, truncate_history, summarize_and_truncate, set_summary, set_history,
  last,
}
use vikram.Session.Copies.{deep_copy_messages_lem}

module _ {V : Type 0} where
  -- The history in an entry of the map.
  abbrev messages_of : Option (Session V) → List (Message V)
  messages_of none = []
  messages_of (some s) = s.messages

  get_history_lem :
      (key : String) (sm : SessionManager V)
      → get_history key sm ≡ messages_of (lookup key sm.sessions)
  unfolding get_history
  get_history_lem key sm = elim (Option-cases (lookup key sm.sessions)) [
    | inl e ↦ rw (e, get_history)
    | inr (s, e) ↦ rw (e, get_history) (deep_copy_messages_lem s.messages)
  ]

  lookup-on_session :
      (f : Session V → Session V) (key other : String) (sm : SessionManager V)
      → lookup other (on_session f key sm).sessions ≡ (
          if key =s= other
          then Option.map f (lookup other sm.sessions)
          else lookup other sm.sessions)
  unfolding on_session store
  lookup-on_session f key other sm = stored (lookup key sm.sessions) refl
    where
      stored :
          (o : Option (Session V))
          → lookup key sm.sessions ≡ o
          → lookup other (store key (Option.map f o) sm).sessions ≡ (
              if key =s= other
              then Option.map f (lookup other sm.sessions)
              else lookup other sm.sessions)
      stored none e = ground (arith, e, str_eq_iff key other)
      stored (some s) e =
          ground (arith, e, lookup-insert key other (f s) sm.sessions, str_eq_iff key other)

  on_session-on_session :
      (f g : Session V → Session V) (key : String) (sm : SessionManager V)
      → on_session f key (on_session g key sm) ≡ on_session (λ s. f (g s)) key sm
  unfolding on_session store
  on_session-on_session f g key sm = composed (lookup key sm.sessions) refl
    where
      composed :
          (o : Option (Session V))
          → lookup key sm.sessions ≡ o
          → on_session f key (store key (Option.map g o) sm)
            ≡ store key (Option.map (λ s. f (g s)) o) sm
      composed none e = rw e
      composed (some s) e =
          rw (
            lookup-insert_self key (g s) sm.sessions,
            insert-insert key (f (g s)) (g s) sm.sessions,
          )

  or_fresh_messages :
      (key : String) (now : Time) (o : Option (Session V))
      → (or_fresh key now o).messages ≡ messages_of o
  unfolding or_fresh
  or_fresh_messages key now none = refl
  or_fresh_messages key now (some s) = refl

  -- A message that is added stands at the end of its session's history, in a new session if there
  -- was none, and no other session's history changes.
  pub get_history-add_full_message :
      (key other : String) (m : Message V) (now : Time) (sm : SessionManager V)
      → get_history other (add_full_message key m now sm)
        ≡ get_history other sm ++ (if key =s= other then m ∷ [] else [])
  unfolding add_full_message
  get_history-add_full_message key other m now sm =
      rw
        (
          get_history_lem other sm,
          get_history_lem other (add_full_message key m now sm),
          lookup-insert key other added sm.sessions,
        )
        (elim (Bool-cases (key =s= other)) [
          | inl e ↦ rw e (same ((str_eq_iff key other).0 e))
          | inr e ↦ rw (e, append-nil (messages_of (lookup other sm.sessions)))
        ])
    where
      s : Session V
      s = or_fresh key now (lookup key sm.sessions)

      added : Session V
      added = record s { messages = s.messages ++ m ∷ []; updated = now }

      same : key ≡ other → s.messages ++ m ∷ [] ≡ messages_of (lookup other sm.sessions) ++ m ∷ []
      same q =
          ap (λ ms. ms ++ m ∷ [])
            (or_fresh_messages key now (lookup key sm.sessions)
              ∙ ap (λ k. messages_of (lookup k sm.sessions)) q)

  truncate_messages :
      (k : ℤ) (now : Time) (s : Session V)
      → (truncate k now s).messages ≡ last (pos_part k) s.messages
  unfolding truncate
  truncate_messages k now s = ground (
    arith,
    drop_all (length s.messages - pos_part k) s.messages,
    drop_none (length s.messages - pos_part k) s.messages,
  )

  -- After the truncation exactly the last `keep_last` messages of that session are left, none if
  -- `keep_last` is not positive and all if there are no more than that; the other histories stay.
  pub get_history-truncate_history :
      (key other : String) (keep_last : ℤ) (now : Time) (sm : SessionManager V)
      → get_history other (truncate_history key keep_last now sm) ≡ (
          if key =s= other
          then last (pos_part keep_last) (get_history other sm)
          else get_history other sm)
  unfolding truncate_history
  get_history-truncate_history key other keep_last now sm =
      rw
        (
          get_history_lem other sm,
          get_history_lem other (truncate_history key keep_last now sm),
          lookup-on_session (truncate keep_last now) key other sm,
        )
        (at_key (lookup other sm.sessions))
    where
      at_key :
          (o : Option (Session V))
          → messages_of (if key =s= other then Option.map (truncate keep_last now) o else o)
            ≡ (if key =s= other then last (pos_part keep_last) (messages_of o) else messages_of o)
      at_key none = ground arith
      at_key (some s) = ground (arith, truncate_messages keep_last now s)

  summarize_lem :
      (summary : String) (k : ℤ) (now : Time) (s : Session V)
      → summarize summary k now s ≡ truncate k now (record s { summary = summary; updated = now })
  unfolding summarize truncate
  summarize_lem summary k now s =
      ground (arith, deep_copy_messages_lem (last (pos_part k) s.messages))

  -- `SummarizeAndTruncate` does in one locked step what `SetSummary` and then `TruncateHistory` do.
  pub summarize_and_truncate_lem :
      (key summary : String) (keep_last : ℤ) (now : Time) (sm : SessionManager V)
      → summarize_and_truncate key summary keep_last now sm
        ≡ truncate_history key keep_last now (set_summary key summary now sm)
  unfolding summarize_and_truncate truncate_history set_summary
  summarize_and_truncate_lem key summary keep_last now sm =
      rw
        (on_session-on_session (truncate keep_last now)
          (λ s. record s { summary = summary; updated = now }) key sm)
        (ap (λ f. on_session f key sm) (fun_ext (summarize_lem summary keep_last now)))

  -- SetHistory gives a session that is there the given history, and changes no other session's.
  pub get_history-set_history :
      (key other : String) (history : List (Message V)) (now : Time) (sm : SessionManager V)
      (s : Session V)
      → lookup key sm.sessions ≡ some s
      → get_history other (set_history key history now sm)
        ≡ (if key =s= other then history else get_history other sm)
  unfolding set_history
  get_history-set_history key other history now sm s e =
      rw
        (
          get_history_lem other sm,
          get_history_lem other (set_history key history now sm),
          lookup-on_session (λ s. record s { messages = deep_copy_messages history; updated = now })
              key other sm,
        )
        (elim (Bool-cases (key =s= other)) [
          | inr f ↦ rw f refl
          | inl t ↦
              let there =
                subst (λ k. lookup k sm.sessions ≡ some s) ((str_eq_iff key other).0 t) e in
              rw (t, there) (deep_copy_messages_lem history)
        ])

  pub get_history-set_summary :
      (key other summary : String) (now : Time) (sm : SessionManager V)
      → get_history other (set_summary key summary now sm) ≡ get_history other sm
  unfolding set_summary
  get_history-set_summary key other summary now sm =
      rw
        (
          get_history_lem other sm,
          get_history_lem other (set_summary key summary now sm),
          lookup-on_session (λ s. record s { summary = summary; updated = now }) key other sm,
        )
        (at_key (lookup other sm.sessions))
    where
      at_key :
          (o : Option (Session V))
          → messages_of (
              if key =s= other
              then Option.map (λ (s : Session V). record s { summary = summary; updated = now }) o
              else o)
            ≡ messages_of o
      at_key none = ground arith
      at_key (some s) = ground arith
