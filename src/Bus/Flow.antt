-- ===== src/Bus/Flow.antt =====
-- pkg/bus/bus.go: the way of outbound messages through one subscriber, over any interleaving of the
-- publishers, the subscriber's goroutine and the consumer.
use mathlib.Core.List.{append-nil, append_assoc}
use vikram.Base.{
  Bool-cases, Option-cases, inl, inr, Bool, true, false, ◌≡◌, refl, sym, ap, subst, ◌∙◌, List, [],
  ◌∷◌, ◌++◌, Option, none, some, length, ltb, arith, if◌then◌else◌,
}
use vikram.Bus.{
  Delivery, OutboundMessage, Subscriber, default_outbound_cap, delivery, offer, after_delivery,
  delivered, gone, overflow, take, forward, time_out, stop, cancel, receive,
}

-- `Sublist xs ys`: `xs` is `ys` less some elements, in their order.
pub data Sublist {A : Type 0} : List A → List A → Type 0 where
  sub_nil : Sublist [] []
  sub_keep : {x : A} {xs ys : List A} → Sublist xs ys → Sublist (x ∷ xs) (x ∷ ys)
  sub_skip : {y : A} {xs ys : List A} → Sublist xs ys → Sublist xs (y ∷ ys)

Sublist-refl : {A : Type 0} (xs : List A) → Sublist xs xs
Sublist-refl [] = sub_nil
Sublist-refl (x ∷ xs) = sub_keep (Sublist-refl xs)

Sublist-trans : {A : Type 0} {xs ys zs : List A} → Sublist xs ys → Sublist ys zs → Sublist xs zs
Sublist-trans p sub_nil = p
Sublist-trans p (sub_skip q) = sub_skip (Sublist-trans p q)
Sublist-trans (sub_keep p) (sub_keep q) = sub_keep (Sublist-trans p q)
Sublist-trans (sub_skip p) (sub_keep q) = sub_skip (Sublist-trans p q)

Sublist-append :
    {A : Type 0} {xs ys us vs : List A}
    → Sublist xs ys
    → Sublist us vs
    → Sublist (xs ++ us) (ys ++ vs)
Sublist-append sub_nil q = q
Sublist-append (sub_keep p) q = sub_keep (Sublist-append p q)
Sublist-append (sub_skip p) q = sub_skip (Sublist-append p q)

Sublist-drop_all : {A : Type 0} (xs : List A) → Sublist [] xs
Sublist-drop_all [] = sub_nil
Sublist-drop_all (x ∷ xs) = sub_skip (Sublist-drop_all xs)

Sublist-longer : {A : Type 0} (xs ys : List A) → Sublist xs (xs ++ ys)
Sublist-longer [] ys = Sublist-drop_all ys
Sublist-longer (x ∷ xs) ys = sub_keep (Sublist-longer xs ys)

pub data Step : Type 0 where
  offered : Bool → OutboundMessage → Step
  taken forwarded timed_out stopped cancelled received : Step

abbrev one : Option OutboundMessage → List OutboundMessage
one none = []
one (some m) = m ∷ []

abbrev got : Subscriber × Option OutboundMessage → List OutboundMessage
got (s, m) = one m

pub run_step : Step → Subscriber × List OutboundMessage → Subscriber × List OutboundMessage
unfolding offer take forward time_out stop cancel receive
run_step (offered pick msg) (s, seen) = (offer pick msg s, seen)
run_step taken (s, seen) = (take s, seen)
run_step forwarded (s, seen) = (forward s, seen)
run_step timed_out (s, seen) = (time_out s, seen)
run_step stopped (s, seen) = (stop s, seen)
run_step cancelled (s, seen) = (cancel s, seen)
run_step received (s, seen) = ((receive s).0, seen ++ one (receive s).1)

-- The subscriber and what its consumer has received, oldest first; the latest step comes first.
unfoldable pub run : Subscriber → List Step → Subscriber × List OutboundMessage
unfolding run_step
run s [] = (s, [])
run s (e ∷ es) = run_step e (run s es)

abbrev pub published : Step → List OutboundMessage
published (offered pick msg) = msg ∷ []
published taken = []
published forwarded = []
published timed_out = []
published stopped = []
published cancelled = []
published received = []

pub offers : List Step → List OutboundMessage
offers [] = []
offers (e ∷ es) = offers es ++ published e

-- What is on the way, oldest first.
abbrev pub in_flight : Subscriber → List OutboundMessage
in_flight s = s.consumer_ch ++ one s.held ++ s.buf

moved : {A : Type 0} (c : List A) (m : A) (ms : List A) → (c ++ m ∷ []) ++ ms ≡ (c ++ []) ++ m ∷ ms
moved c m ms = append_assoc c (m ∷ []) ms ∙ ap (λ z. z ++ m ∷ ms) (sym (append-nil c))

take-in_flight :
    (s : Subscriber) (b : List OutboundMessage) → s.buf ≡ b → in_flight (take s) ≡ in_flight s
unfolding take
take-in_flight s [] e = ground arith
take-in_flight s (m ∷ ms) e = ground (arith, moved s.consumer_ch m ms)

forward_held :
    (s : Subscriber) (m : OutboundMessage)
    → s.held ≡ some m
    → forward s ≡ (
        if ltb (length s.consumer_ch) default_outbound_cap
        then record s { consumer_ch = s.consumer_ch ++ m ∷ []; held = none }
        else s)
unfolding forward
forward_held s m e = rw e refl

sent-in_flight :
    (room : Bool) (s : Subscriber) (m : OutboundMessage)
    → s.held ≡ some m
    → in_flight
        (if room then record s { consumer_ch = s.consumer_ch ++ m ∷ []; held = none } else s)
      ≡ in_flight s
sent-in_flight true s m e = ground (arith, append-nil (s.consumer_ch ++ m ∷ []))
sent-in_flight false s m e = refl

forward-in_flight : (s : Subscriber) → in_flight (forward s) ≡ in_flight s
unfolding forward
forward-in_flight s = elim (Option-cases s.held) [
  | inl e ↦ ground arith
  | inr (m, e) ↦
      ap (λ t. in_flight t) (forward_held s m e)
      ∙ sent-in_flight (ltb (length s.consumer_ch) default_outbound_cap) s m e
]

less_held : {A : Type 0} (c h b : List A) → Sublist (c ++ [] ++ b) (c ++ h ++ b)
less_held c h b =
    Sublist-append (Sublist-append (Sublist-refl c) (Sublist-drop_all h)) (Sublist-refl b)

time_out-in_flight : (s : Subscriber) → Sublist (in_flight (time_out s)) (in_flight s)
unfolding time_out
time_out-in_flight s =
    let lost : in_flight (time_out s) ≡ s.consumer_ch ++ [] ++ s.buf = ground arith in
    subst (λ z. Sublist z (in_flight s)) (sym lost) (less_held s.consumer_ch (one s.held) s.buf)

stop-in_flight : (s : Subscriber) → Sublist (in_flight (stop s)) (in_flight s)
unfolding stop
stop-in_flight s = elim (Bool-cases s.cancelled) [
  | inl t ↦ rw t (less_held s.consumer_ch (one s.held) s.buf)
  | inr f ↦ rw f (Sublist-refl (in_flight s))
]

receive-in_flight :
    (seen : List OutboundMessage) (s : Subscriber) (c : List OutboundMessage)
    → s.consumer_ch ≡ c
    → (seen ++ one (receive s).1) ++ in_flight (receive s).0 ≡ seen ++ in_flight s
unfolding receive
receive-in_flight seen s [] e = ground (arith, append-nil seen)
receive-in_flight seen s (m ∷ ms) e =
    ground (arith, append_assoc seen (m ∷ []) (ms ++ one s.held ++ s.buf))

after_delivery-in_flight :
    (m : OutboundMessage) (d : Delivery) (s : Subscriber)
    → Sublist (in_flight (after_delivery m d s)) (in_flight s ++ m ∷ [])
unfolding after_delivery
after_delivery-in_flight m delivered s =
    subst (λ z. Sublist z (in_flight s ++ m ∷ []))
      (append_assoc (s.consumer_ch ++ one s.held) s.buf (m ∷ []))
      (Sublist-refl (in_flight s ++ m ∷ []))
after_delivery-in_flight m gone s = Sublist-longer (in_flight s) (m ∷ [])
after_delivery-in_flight m overflow s = Sublist-longer (in_flight s) (m ∷ [])

same : {xs ys : List OutboundMessage} → xs ≡ ys → Sublist xs ys
same {xs = xs} e = subst (λ z. Sublist xs z) e (Sublist-refl xs)

nothing_new :
    (seen xs ys : List OutboundMessage) → Sublist xs ys → Sublist (seen ++ xs) ((seen ++ ys) ++ [])
nothing_new seen xs ys p =
    subst (λ z. Sublist (seen ++ xs) z) (sym (append-nil (seen ++ ys)))
      (Sublist-append (Sublist-refl seen) p)

run_step-Sublist :
    (e : Step) (r : Subscriber × List OutboundMessage)
    → Sublist
        ((run_step e r).1 ++ in_flight (run_step e r).0)
        ((r.1 ++ in_flight r.0) ++ published e)
unfolding run_step offer cancel
run_step-Sublist (offered pick m) (s, seen) =
    subst (λ z. Sublist (seen ++ in_flight (offer pick m s)) z)
      (sym (append_assoc seen (in_flight s) (m ∷ [])))
      (Sublist-append (Sublist-refl seen) (after_delivery-in_flight m (delivery pick s) s))
run_step-Sublist taken (s, seen) =
    nothing_new seen (in_flight (take s)) (in_flight s) (same (take-in_flight s _ refl))
run_step-Sublist forwarded (s, seen) =
    nothing_new seen (in_flight (forward s)) (in_flight s) (same (forward-in_flight s))
run_step-Sublist timed_out (s, seen) =
    nothing_new seen (in_flight (time_out s)) (in_flight s) (time_out-in_flight s)
run_step-Sublist stopped (s, seen) =
    nothing_new seen (in_flight (stop s)) (in_flight s) (stop-in_flight s)
run_step-Sublist cancelled (s, seen) =
    nothing_new seen (in_flight s) (in_flight s) (Sublist-refl (in_flight s))
run_step-Sublist received (s, seen) =
    same (receive-in_flight seen s _ refl ∙ sym (append-nil (seen ++ in_flight s)))

-- Whatever the interleaving, what the consumer has received, followed by what is on the way to it, is
-- what was on the way at the start followed by what was published since, less some messages: no
-- message is repeated or overtakes another.
pub run-Sublist :
    (s : Subscriber) (es : List Step)
    → Sublist ((run s es).1 ++ in_flight (run s es).0) (in_flight s ++ offers es)
unfolding run offers
run-Sublist s [] = same (sym (append-nil (in_flight s)))
run-Sublist s (e ∷ es) =
    subst (λ z. Sublist ((run s (e ∷ es)).1 ++ in_flight (run s (e ∷ es)).0) z)
      (append_assoc (in_flight s) (offers es) (published e))
      (Sublist-trans (run_step-Sublist e (run s es))
        (Sublist-append (run-Sublist s es) (Sublist-refl (published e))))
