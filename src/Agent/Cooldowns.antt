-- ===== src/Agent/Cooldowns.antt =====
-- pkg/agent/loop.go, runLLMIteration: a model whose key was refused, when the agent serves requests at
-- the same time. The cooldowns are shared by all requests, and a try reads them in one step and changes
-- them in others, so each try takes its steps among those of others.
use vikram.Base.{
  ℕ, String, Bool, true, false, not, List, [], ◌∷◌, ◌++◌, Option, none, some, ◌≡◌, refl, ap, ◌∙◌,
  arith, if◌then◌else◌, count_if, count_if-append, pick, All, PickAll, pick-All,
}
use vikram.Base.Map.{lookup, insert, lookup-insert_self}
use vikram.Base.Time.{Time}
use vikram.Base.Result.{Result, err}
use vikram.Providers.{Message, LlmResponse}
use vikram.Agent.Council.{
  Setting, Talk, Asked, Trouble, Cooldown, cooling, auth_error, cache_skip, cooldown_at, classify,
  ask_fallback, notify, recover_from, has_council, council, try_primary, skipped_text, auth_text,
}

-- What a request brings to the steps of its tries.
pub record Place (V : Type 0) : Type 0 where
  pub session_key : String
  pub channel : String
  pub chat_id : String
  pub internal : Bool
  pub messages : List (Message V)
  pub with_tools : Bool

-- The shared state, the tries that have read the cooldown of the model, and those that have the answer
-- of the primary model or the error of its cooldown.
pub record Tries (W V : Type 0) : Type 0 where
  pub talk : Talk W V
  pub waiting : List Cooldown
  pub results : List (Result String (LlmResponse V))

-- A try reads the cooldown; it ends a cooldown that has expired and asks the primary model; it goes to
-- the council. The last two name the try by its place in the list.
pub data Op (V : Type 0) : Type 0 where
  loads : Time → Op V
  asks : ℕ → Place V → Op V
  recovers : ℕ → Time → Place V → Op V

module _ {W V : Type 0} (c : Setting W V) where
  abbrev pub at_place : Place V → Setting W V
  at_place p = record c {
    session_key = p.session_key;
    channel = p.channel;
    chat_id = p.chat_id;
    internal = p.internal;
  }

  abbrev pub of_request : Place V → Talk W V → Talk W V
  of_request p s = record s { messages = p.messages; with_tools = p.with_tools }

  unfoldable pub after_asking : Option (Cooldown × List Cooldown) → Place V → Tries W V → Tries W V
  unfolding try_primary
  after_asking none p t = t
  after_asking (some (cd, rest)) p t =
      let r = try_primary (at_place p) cd (of_request p t.talk) in
      record t { talk = r.1; waiting = rest; results = r.0 ∷ t.results }

  unfoldable pub after_council :
      Option (Result String (LlmResponse V) × List (Result String (LlmResponse V)))
      → Time
      → Place V
      → Tries W V
      → Tries W V
  unfolding council
  after_council none now p t = t
  after_council (some (r, rest)) now p t = record t {
    talk = (council (at_place p) now (r, of_request p t.talk)).1;
    results = rest;
  }

  unfoldable pub step : Op V → Tries W V → Tries W V
  unfolding cooldown_at lookup after_asking after_council
  step (loads now) t = record t {
    waiting = cooldown_at now (lookup c.model t.talk.cooldowns) ∷ t.waiting;
  }
  step (asks k p) t = after_asking (pick k t.waiting) p t
  step (recovers k now p) t = after_council (pick k t.results) now p t

  unfoldable pub run : List (Op V) → Tries W V → Tries W V
  unfolding step
  run [] t = t
  run (op ∷ ops) t = run ops (step op t)

module _ {W V : Type 0} (c : Setting W V) where
  -- How often the primary model was asked.
  abbrev pub primary_asks : Talk W V → ℕ
  primary_asks s = count_if (λ a. not (Asked.by_fallback a)) s.asked

  -- The model has a cooldown without an end.
  pub IsBanned : Talk W V → Type 0
  IsBanned s = lookup c.model s.cooldowns ≡ some 0

  -- Nothing has changed for the primary model.
  pub SameFor : Talk W V → Talk W V → Type 0
  unfolding IsBanned
  SameFor s t = (t.cooldowns ≡ s.cooldowns) × (primary_asks t ≡ primary_asks s)

  SameFor-trans : (s t u : Talk W V) → SameFor s t → SameFor t u → SameFor s u
  unfolding SameFor
  SameFor-trans s t u a b = (b.0 ∙ a.0, b.1 ∙ a.1)

  SameFor-IsBanned : (s t : Talk W V) → SameFor s t → IsBanned s → IsBanned t
  unfolding SameFor IsBanned
  SameFor-IsBanned s t a b = ap (lookup c.model) a.0 ∙ b

  fallback-SameFor : (s : Talk W V) → SameFor s (ask_fallback c s).1
  unfolding SameFor ask_fallback
  fallback-SameFor s = (
    refl,
    omega (
      arith,
      count_if-append (λ a. not (Asked.by_fallback a)) s.asked
          (record { by_fallback = true; model = c.council_fallback } ∷ []),
    ),
  )

  notify-SameFor : (text : String) (s : Talk W V) → SameFor s (notify c text s)
  unfolding SameFor notify
  notify-SameFor text s = cases c.internal
    where
      cases :
          (b : Bool)
          → SameFor s (
              if b then s else record s {
                sent =
                    s.sent
                    ++ record { channel = c.channel; chat_id = c.chat_id; content = text } ∷ [];
              })
      cases true = (refl, refl)
      cases false = (refl, refl)

  SameFor-refl : (s : Talk W V) → SameFor s s
  unfolding SameFor
  SameFor-refl s = (refl, refl)

  -- The error of a skipped model is told from the others (by its text).
  unfoldable pub SkipIsSeen : Type 0
  SkipIsSeen = c.go.contains (c.lower (skipped_text c)) "active cooldown cache" ≡ true

  classify-skipped : SkipIsSeen → classify c (c.lower (skipped_text c)) ≡ cache_skip
  unfolding SkipIsSeen classify
  classify-skipped seen = rw seen refl

  -- The council's answer to a skipped model asks the fallback model, or no one.
  skipped-SameFor :
      (now : Time) (s : Talk W V) (b : Bool) (k : Trouble)
      → k ≡ cache_skip
      → SameFor s
          (if b then recover_from c k now (skipped_text c) s else (err (skipped_text c), s)).1
  unfolding recover_from
  skipped-SameFor now s true k e = rw e (fallback-SameFor s)
  skipped-SameFor now s false k e = SameFor-refl s

  council-SameFor :
      (now : Time) (s : Talk W V)
      → SkipIsSeen
      → SameFor s (council c now (err (skipped_text c), s)).1
  unfolding council
  council-SameFor now s seen = skipped-SameFor now s (has_council c) _ (classify-skipped seen)

  stored-IsBanned :
      (s : Talk W V) → IsBanned (record s { cooldowns = insert c.model 0 s.cooldowns })
  unfolding IsBanned
  stored-IsBanned s = lookup-insert_self c.model 0 s.cooldowns

  council-auth :
      (now : Time) (e : String) (s : Talk W V)
      → has_council c ≡ true
      → classify c (c.lower e) ≡ auth_error
      → IsBanned (council c now (err e, s)).1
        × (primary_asks (council c now (err e, s)).1 ≡ primary_asks s)
  unfolding council recover_from SameFor
  council-auth now e s on auth =
      let stored = record s { cooldowns = insert c.model 0 s.cooldowns } in
      let told = notify c (auth_text c) stored in
      let first = notify-SameFor (auth_text c) stored in
      let second = fallback-SameFor told in
      rw (on, auth)
        (
          SameFor-IsBanned told (ask_fallback c told).1 second
              (SameFor-IsBanned stored told first (stored-IsBanned s)),
          second.1 ∙ first.1,
        )

module _ {W V : Type 0} (c : Setting W V) where
  -- The model is banned, and no try under way is to ask it or to change its cooldown.
  abbrev IsQuiet : Tries W V → Type 0
  IsQuiet t =
      IsBanned c t.talk
      × All (λ cd. cd ≡ cooling) t.waiting
      × All (λ r. r ≡ err (skipped_text c)) t.results

  -- What a step keeps.
  abbrev Kept : Tries W V → Tries W V → Type 0
  Kept t u = IsQuiet u × (primary_asks c u.talk ≡ primary_asks c t.talk)

  after_asking-Kept :
      (o : Option (Cooldown × List Cooldown)) (p : Place V) (t : Tries W V)
      → PickAll (λ cd. cd ≡ cooling) o
      → IsQuiet t
      → Kept t (after_asking c o p t)
  unfolding after_asking IsBanned try_primary
  after_asking-Kept none p t h q = (q, refl)
  after_asking-Kept (some (cd, rest)) p t (is_cooling, others) (banned, waiting, results) =
      rw is_cooling ((banned, others, (refl, results)), refl)

  after_council-Kept :
      (o : Option (Result String (LlmResponse V) × List (Result String (LlmResponse V))))
      (now : Time) (p : Place V) (t : Tries W V)
      → SkipIsSeen c
      → PickAll (λ r. r ≡ err (skipped_text c)) o
      → IsQuiet t
      → Kept t (after_council c o now p t)
  unfolding after_council SameFor IsBanned SkipIsSeen
  after_council-Kept none now p t seen h q = (q, refl)
  after_council-Kept (some (r, rest)) now p t seen (skipped, others) (banned, waiting, results) =
      let same = council-SameFor (at_place c p) now (of_request c p t.talk) seen in
      rw skipped ((ap (lookup c.model) same.0 ∙ banned, waiting, others), same.1)

  step-Kept : (op : Op V) (t : Tries W V) → SkipIsSeen c → IsQuiet t → Kept t (step c op t)
  unfolding step IsBanned cooldown_at
  step-Kept (loads now) t seen (banned, waiting, results) =
      ((banned, (ap (cooldown_at now) banned, waiting), results), refl)
  step-Kept (asks k p) t seen q =
      after_asking-Kept (pick k t.waiting) p t (pick-All (λ cd. cd ≡ cooling) k t.waiting q.1) q
  step-Kept (recovers k now p) t seen q =
      after_council-Kept (pick k t.results) now p t seen
        (pick-All (λ r. r ≡ err (skipped_text c)) k t.results q.2) q

  run-Kept :
      (ops : List (Op V)) (t : Tries W V)
      → SkipIsSeen c
      → IsQuiet t
      → primary_asks c (run c ops t).talk ≡ primary_asks c t.talk
  unfolding run
  run-Kept [] t seen q = refl
  run-Kept (op ∷ ops) t seen q =
      let (quiet, same) = step-Kept op t seen q in run-Kept ops (step c op t) seen quiet ∙ same

  -- When a try brings an error that counts as a refused key to the council, while no other try is
  -- between reading the cooldown and the end of its council, and the council is on with a fallback
  -- other than the primary model, then no later steps of any tries, of any requests, in any order,
  -- ask the primary model again. The model and the council's settings stay as they are, and the error
  -- of a skipped model is told from others by its text.
  pub run-recovers :
      (now : Time) (e : String) (p : Place V) (s : Talk W V) (ops : List (Op V))
      → has_council c ≡ true
      → classify c (c.lower e) ≡ auth_error
      → SkipIsSeen c
      → primary_asks c
          (run c
            (recovers 0 now p ∷ ops)
            (record { talk = s; waiting = []; results = err e ∷ [] })).talk
        ≡ primary_asks c s
  unfolding run step after_council has_council classify IsBanned
  run-recovers now e p s ops on auth seen =
      let (banned, same) = council-auth (at_place c p) now e (of_request c p s) on auth in
      run-Kept ops
        (step c (recovers 0 now p) (record { talk = s; waiting = []; results = err e ∷ [] })) seen
        (banned, tt, tt)
      ∙ same
