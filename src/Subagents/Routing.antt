-- ===== src/Subagents/Routing.antt =====
-- pkg/tools/toolloop.go: whom `ResolveAgent` finds after any registrations.
use vikram.Base.{
  String, Bool, true, false, not, List, [], ◌∷◌, Option, none, some, if◌then◌else◌, ◌=s=◌, ◌≡◌, ◌≢◌,
  refl, sym, ap, ◌∙◌, arith, str_eq_iff, str_eq_sym, str_ne, Bool-cases, inl, inr,
}
use vikram.Base.Map.{
  check, lookup, insert, delete, retain, Distinct, lookup-insert, lookup-delete, lookup-retain,
  insert-Distinct, retain-Distinct,
}
use vikram.Subagents.{
  SubagentManager, AgentEntry, register_agent, unregister_agent, unregister_found, resolve_agent,
  role_entry, or_entry, or_else, fallback,
}

pub data Call (P V : Type 0) : Type 0 where
  registers : String → String → AgentEntry P V → Call P V
  unregisters : String → Call P V

module _ {P T V : Type 0} where
  pub step : Call P V → SubagentManager P T V → SubagentManager P T V
  unfolding register_agent unregister_agent
  step (registers i role entry) m = register_agent i role entry m
  step (unregisters i) m = (unregister_agent i m).0

  -- The last call stands first.
  unfoldable pub run : List (Call P V) → SubagentManager P T V → SubagentManager P T V
  unfolding step
  run [] m = m
  run (c ∷ cs) m = step c (run cs m)

abbrev pub unless : String → Option String → Option String
unless i none = none
unless i (some k) = if not (k =s= i) then some k else none

module _ {P V : Type 0} where
  -- The specification, which reads the history from the last call back: what an identifier stands
  -- for, and who holds a role.
  unfoldable pub entry_at : String → List (Call P V) → Option (AgentEntry P V)
  unfolding ◌=s=◌
  entry_at l [] = none
  entry_at l (registers i role entry ∷ h) = if i =s= l then some entry else entry_at l h
  entry_at l (unregisters i ∷ h) = if i =s= l then none else entry_at l h

  unfoldable pub role_holder : String → List (Call P V) → Option String
  unfolding ◌=s=◌
  role_holder r [] = none
  role_holder r (registers i role entry ∷ h) =
      let before = role_holder r h in
      if role =s= "" then before else if role =s= r then some i else before
  role_holder r (unregisters i ∷ h) = unless i (role_holder r h)

  abbrev entry_of : List (Call P V) → Option String → Option (AgentEntry P V)
  entry_of h none = none
  entry_of h (some i) = entry_at i h

  unfoldable pub route : String → List (Call P V) → Option (AgentEntry P V)
  unfolding entry_at role_holder
  route label h = or_else (entry_at label h) (entry_of h (role_holder label h))

-- The maps of a manager agree with the history, and a role is held by an agent that is registered.
record Agrees {P T V : Type 0} (h : List (Call P V)) (m : SubagentManager P T V) : Type 0 where
  entries : (l : String) → lookup l m.agent_entries ≡ entry_at l h
  roles : (r : String) → lookup r m.role_to_id ≡ role_holder r h
  held : (r i : String) → role_holder r h ≡ some i → entry_at i h ≢ none
  distinct : Distinct m.role_to_id

if_some :
    {A : Type 0} (b : Bool) (x : A) (o : Option A)
    → (b ≡ false → o ≢ none)
    → (if b then some x else o) ≢ none
if_some true x o h e = absurd (cc e)
if_some false x o h e = h refl e

module _ {P T V : Type 0} (h : List (Call P V)) (m : SubagentManager P T V) (a : Agrees h m) where
  registered_role :
      (i role r : String) (b : Bool)
      → lookup r (if b then m.role_to_id else insert role i m.role_to_id)
        ≡ (if b then role_holder r h else if role =s= r then some i else role_holder r h)
  registered_role i role r true = a.roles r
  registered_role i role r false =
      lookup-insert role r i m.role_to_id ∙ ap (λ o. if role =s= r then some i else o) (a.roles r)

  kept_role :
      (i role r k : String) (b c : Bool)
      → (i =s= k) ≡ false
      → (if b then role_holder r h else if c then some i else role_holder r h) ≡ some k
      → entry_at k h ≢ none
  kept_role i role r k true c other e = a.held r k e
  kept_role i role r k false false other e = a.held r k e
  kept_role i role r k false true other e =
      let same : i ≡ k = cc e in absurd (ground (arith, str_eq_iff i k, same, other))

  registered-Distinct :
      (i role : String) (b : Bool)
      → Distinct (if b then m.role_to_id else insert role i m.role_to_id)
  registered-Distinct i role true = a.distinct
  registered-Distinct i role false = insert-Distinct role i m.role_to_id a.distinct

  register-Agrees :
      (i role : String) (entry : AgentEntry P V)
      → Agrees (registers i role entry ∷ h) (register_agent i role entry m)
  unfolding register_agent entry_at role_holder
  register-Agrees i role entry = record {
    entries = λ l. lookup-insert i l entry m.agent_entries ∙ ground (arith, a.entries l);
    roles = λ r. registered_role i role r (role =s= "");
    held = λ r k e.
        if_some (i =s= k) entry (entry_at k h)
          (λ other. kept_role i role r k (role =s= "") (role =s= r) other e);
    distinct = registered-Distinct i role (role =s= "");
  }

  unless-some :
      (i k : String) (o : Option String) → unless i o ≡ some k → (o ≡ some k) × ((k =s= i) ≡ false)
  unless-some i k none e = absurd (cc e)
  unless-some i k (some j) e = elim (Bool-cases (j =s= i)) [
    | inl t ↦ absurd (cc (rw t at e))
    | inr f ↦ let same : j ≡ k = cc (rw f at e) in (ap some same, ap (λ x. x =s= i) (sym same) ∙ f)
  ]

  removed_role : (i : String) (o : Option String) → check (λ k. not (k =s= i)) o ≡ unless i o
  removed_role i none = refl
  removed_role i (some k) = refl

  unless_same :
      (i : String) (o : Option String)
      → ((k : String) → o ≡ some k → (k =s= i) ≡ false)
      → o ≡ unless i o
  unless_same i none other = refl
  unless_same i (some k) other = rw (other k refl) refl

  none_if :
      {A : Type 0} (b : Bool) (o : Option A) → b ≡ false → o ≢ none → (if b then none else o) ≢ none
  none_if true o e h = absurd (cc e)
  none_if false o e h = h

  removed_held :
      (i r k : String)
      → unless i (role_holder r h) ≡ some k
      → (if i =s= k then none else entry_at k h) ≢ none
  removed_held i r k e =
      let (held, other) = unless-some i k (role_holder r h) e in
      none_if (i =s= k) (entry_at k h) (str_eq_sym i k ∙ other) (a.held r k held)

  removed-Agrees :
      (i : String)
      → Agrees (unregisters i ∷ h) (record m {
        agent_entries = delete i m.agent_entries;
        role_to_id = retain (λ k. not (k =s= i)) m.role_to_id;
      })
  unfolding entry_at role_holder
  removed-Agrees i = record {
    entries = λ l. lookup-delete i l m.agent_entries ∙ ground (arith, a.entries l);
    roles = λ r.
        lookup-retain (λ k. not (k =s= i)) r m.role_to_id a.distinct
        ∙ ap (check (λ k. not (k =s= i))) (a.roles r)
        ∙ removed_role i (role_holder r h);
    held = removed_held i;
    distinct = retain-Distinct (λ k. not (k =s= i)) m.role_to_id a.distinct;
  }

  missing_entry :
      (i l : String) (b : Bool)
      → entry_at i h ≡ none
      → (i =s= l) ≡ b
      → entry_at l h ≡ (if b then none else entry_at l h)
  missing_entry i l true e t = ap (λ x. entry_at x h) (sym ((str_eq_iff i l).0 t)) ∙ e
  missing_entry i l false e t = refl

  missing_holder :
      (i r k : String) → entry_at i h ≡ none → role_holder r h ≡ some k → (k =s= i) ≡ false
  missing_holder i r k e held =
      str_ne k i (λ same. a.held r k held (ap (λ x. entry_at x h) same ∙ e))

  -- Nothing is removed where the identifier is not registered.
  missing-Agrees : (i : String) → entry_at i h ≡ none → Agrees (unregisters i ∷ h) m
  unfolding entry_at role_holder
  missing-Agrees i e = record {
    entries = λ l. a.entries l ∙ missing_entry i l (i =s= l) e refl;
    roles =
        λ r. a.roles r ∙ unless_same i (role_holder r h) (λ k held. missing_holder i r k e held);
    held = removed_held i;
    distinct = a.distinct;
  }

  unregister-Agrees :
      (i : String) (o : Option (AgentEntry P V))
      → lookup i m.agent_entries ≡ o
      → Agrees (unregisters i ∷ h) (unregister_found i o m).0
  unfolding unregister_found
  unregister-Agrees i none e = missing-Agrees i (sym (a.entries i) ∙ e)
  unregister-Agrees i (some entry) e = removed-Agrees i

  resolve-route : (label : String) → resolve_agent label m ≡ or_entry (fallback m) (route label h)
  unfolding resolve_agent role_entry route
  resolve-route label = ap (or_entry (fallback m)) (
      ap (λ o. or_else o (role_entry m (lookup label m.role_to_id))) (a.entries label)
      ∙ ap (or_else (entry_at label h)) (at_role (lookup label m.role_to_id) (a.roles label)))
    where
      at_role :
          (o : Option String)
          → o ≡ role_holder label h
          → role_entry m o ≡ entry_of h (role_holder label h)
      at_role none e = ap (entry_of h) e
      at_role (some i) e = a.entries i ∙ ap (entry_of h) e

module _ {P T V : Type 0} where
  run-Agrees :
      (cs : List (Call P V)) (m : SubagentManager P T V) → Agrees [] m → Agrees cs (run cs m)
  unfolding run step register_agent unregister_agent
  run-Agrees [] m a = a
  run-Agrees (registers i role entry ∷ cs) m a =
      register-Agrees cs (run cs m) (run-Agrees cs m a) i role entry
  run-Agrees (unregisters i ∷ cs) m a =
      unregister-Agrees cs (run cs m) (run-Agrees cs m a) i (lookup i (run cs m).agent_entries) refl

  fallback-unregister :
      (i : String) (o : Option (AgentEntry P V)) (m : SubagentManager P T V)
      → fallback (unregister_found i o m).0 ≡ fallback m
  unfolding unregister_found
  fallback-unregister i none m = refl
  fallback-unregister i (some entry) m = refl

  fallback-run :
      (cs : List (Call P V)) (m : SubagentManager P T V) → fallback (run cs m) ≡ fallback m
  unfolding run step register_agent unregister_agent
  fallback-run [] m = refl
  fallback-run (registers i role entry ∷ cs) m = fallback-run cs m
  fallback-run (unregisters i ∷ cs) m =
      fallback-unregister i (lookup i (run cs m).agent_entries) (run cs m) ∙ fallback-run cs m

  nothing-Agrees :
      (m : SubagentManager P T V) → m.agent_entries ≡ [] → m.role_to_id ≡ [] → Agrees [] m
  unfolding entry_at role_holder lookup
  nothing-Agrees m entries roles = record {
    entries = λ l. ap (lookup l) entries;
    roles = λ r. ap (lookup r) roles;
    held = λ r i e. absurd (cc e);
    distinct = rw roles tt;
  }

  -- After any registrations and removals of agents on a manager that had none (the last call stands
  -- first), ResolveAgent gives the entry that the label was last registered with as an identifier, if
  -- it was not removed since; else the entry of the agent that was last registered under the label as
  -- its role, if that agent was not removed since; and else the manager's own provider, model and
  -- message builder.
  pub resolve_agent-run :
      (m : SubagentManager P T V) (cs : List (Call P V)) (label : String)
      → m.agent_entries ≡ []
      → m.role_to_id ≡ []
      → resolve_agent label (run cs m) ≡ or_entry (fallback m) (route label cs)
  resolve_agent-run m cs label entries roles =
      resolve-route cs (run cs m) (run-Agrees cs m (nothing-Agrees m entries roles)) label
      ∙ ap (λ d. or_entry d (route label cs)) (fallback-run cs m)
