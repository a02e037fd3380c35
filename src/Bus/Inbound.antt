-- ===== src/Bus/Inbound.antt =====
-- pkg/bus/bus.go: the inbound queue.
use mathlib.Core.List.{append-nil, append_assoc}
use vikram.Base.{
  ℕ, suc, ◌≤◌, Bool, true, false, ◌≡◌, refl, sym, ap, subst, ◌∙◌, List, [], ◌∷◌, ◌++◌, Option, none,
  some, length, length-append, arith, if◌then◌else◌,
}
use vikram.Bus.{
  Admission, queued, closed, full, admission, after_admission, InboundMessage, MessageBus,
  default_inbound_cap, new_message_bus, publish_inbound, consume_inbound, close,
}

pub data Call : Type 0 where
  publish : Bool → InboundMessage → Call
  consume : Bool → Call
  close_bus : Call

-- What the calls have seen: the messages for which PublishInbound returned true, those that
-- ConsumeInbound returned, each oldest first, and how often an open bus refused a message.
pub record Log : Type 0 where
  pub accepted : List InboundMessage
  pub consumed : List InboundMessage
  pub refused : ℕ

abbrev one : Option InboundMessage → List InboundMessage
one none = []
one (some m) = m ∷ []

module _ {H : Type 0} where
  abbrev log_publish : InboundMessage → MessageBus H → Bool → Log → Log
  log_publish m mb true l = record l { accepted = l.accepted ++ m ∷ [] }
  log_publish m mb false l = if mb.done then l else record l { refused = suc l.refused }

  pub run_call : Call → MessageBus H × Log → MessageBus H × Log
  run_call (publish pick m) (mb, l) =
      ((publish_inbound pick m mb).0, log_publish m mb (publish_inbound pick m mb).1 l)
  run_call (consume ctx_done) (mb, l) = (
    (consume_inbound ctx_done mb).0,
    record l { consumed = l.consumed ++ one (consume_inbound ctx_done mb).1 },
  )
  run_call close_bus (mb, l) = (close mb, l)

  -- From a new bus; the latest call comes first.
  pub run_calls : List Call → MessageBus H × Log
  run_calls [] = (new_message_bus, record { accepted = []; consumed = []; refused = 0 })
  run_calls (c ∷ cs) = run_call c (run_calls cs)

  pub record Kept (r : MessageBus H × Log) : Type 0 where
    pub in_order : r.1.accepted ≡ r.1.consumed ++ r.0.inbound
    pub fits : length r.0.inbound ≤ default_inbound_cap
    pub counted : r.0.dropped_inbound ≡ r.1.refused

  admission-queued :
      (pick : Bool) (mb : MessageBus H)
      → admission pick mb ≡ queued
      → suc (length mb.inbound) ≤ default_inbound_cap
  unfolding admission
  admission-queued pick mb h = ground arith

  admission-full : (pick : Bool) (mb : MessageBus H) → admission pick mb ≡ full → mb.done ≡ false
  unfolding admission
  admission-full pick mb h = ground arith

  admission-closed : (pick : Bool) (mb : MessageBus H) → admission pick mb ≡ closed → mb.done ≡ true
  unfolding admission
  admission-closed pick mb h = ground arith

  after_admission-Kept :
      (pick : Bool) (m : InboundMessage) (mb : MessageBus H) (l : Log) (a : Admission)
      → admission pick mb ≡ a
      → Kept (mb, l)
      → Kept ((after_admission m a mb).0, log_publish m mb (after_admission m a mb).1 l)
  unfolding after_admission
  after_admission-Kept pick m mb l queued e h = record {
    in_order = ap (λ z. z ++ m ∷ []) h.in_order ∙ append_assoc l.consumed mb.inbound (m ∷ []);
    fits =
        let room = admission-queued pick mb e in omega (arith, length-append mb.inbound (m ∷ []));
    counted = h.counted;
  }
  after_admission-Kept pick m mb l closed e h =
      subst (λ d. Kept (mb, if d then l else record l { refused = suc l.refused }))
        (sym (admission-closed pick mb e)) h
  after_admission-Kept pick m mb l full e h =
      subst
        (λ d. Kept (
          record mb { dropped_inbound = suc mb.dropped_inbound },
          if d then l else record l { refused = suc l.refused },
        ))
        (sym (admission-full pick mb e))
        (record { in_order = h.in_order; fits = h.fits; counted = ap suc h.counted })

  if-Kept :
      (b : Bool) (x y : MessageBus H) (l : Log)
      → Kept (x, l)
      → Kept (y, l)
      → Kept (if b then x else y, l)
  if-Kept true x y l hx hy = hx
  if-Kept false x y l hx hy = hy

  consume-Kept :
      (mb : MessageBus H) (l : Log) (q : List InboundMessage)
      → mb.inbound ≡ q
      → Kept (mb, l)
      → Kept (run_call (consume false) (mb, l))
  unfolding run_call consume_inbound
  consume-Kept mb l [] e h = record {
    in_order = ground (arith, append-nil l.consumed, h.in_order);
    fits = ground (arith, h.fits);
    counted = ground (arith, h.counted);
  }
  consume-Kept mb l (m ∷ ms) e h = record {
    in_order = ground (arith, append_assoc l.consumed (m ∷ []) ms, h.in_order);
    fits = ground (arith, h.fits);
    counted = ground (arith, h.counted);
  }

  run_call-Kept : (c : Call) (r : MessageBus H × Log) → Kept r → Kept (run_call c r)
  unfolding run_call publish_inbound consume_inbound close
  run_call-Kept (publish pick m) (mb, l) h = after_admission-Kept pick m mb l _ refl h
  run_call-Kept (consume true) (mb, l) h = record {
    in_order = h.in_order ∙ ap (λ z. z ++ mb.inbound) (sym (append-nil l.consumed));
    fits = h.fits;
    counted = h.counted;
  }
  run_call-Kept (consume false) (mb, l) h = consume-Kept mb l _ refl h
  run_call-Kept close_bus (mb, l) h =
      if-Kept mb.done mb _ l h
        (record { in_order = h.in_order; fits = h.fits; counted = h.counted })

  -- From a new bus, after any calls of PublishInbound, ConsumeInbound and Close: the messages that were
  -- accepted are those that were consumed followed by those in the queue, in the order of their
  -- acceptance; the queue is within its capacity; and the drop counter is the number of messages that
  -- an open bus refused.
  pub run_calls-Kept : (cs : List Call) → Kept (run_calls cs)
  unfolding run_calls new_message_bus
  run_calls-Kept [] = record { in_order = refl; fits = omega arith; counted = refl }
  run_calls-Kept (c ∷ cs) = run_call-Kept c (run_calls cs) (run_calls-Kept cs)
