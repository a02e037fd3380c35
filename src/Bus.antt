-- ===== src/Bus.antt =====
-- pkg/bus/bus.go and pkg/bus/types.go: the message bus. `H` stands for the handlers' functions. Where a
-- select has two ready cases, Go picks one at random: `pick` is the pick, true for the send. A
-- goroutine of a subscriber is a sequence of its steps (`take`, `forward`, `time_out`, `stop`).
pub mod Flow
pub mod Inbound
pub mod Fan
mod Examples
use vikram.Base.{
  ℕ, suc, ◌+◌, String, Bool, true, false, not, ◌&&◌, List, [], ◌∷◌, ◌++◌, map, Option, none, some,
  ◌==◌, if◌then◌else◌, length, ltb,
}
use vikram.Base.Map.{Map, lookup, insert}

pub record InboundMessage : Type 0 where
  pub channel : String
  pub sender_id : String
  pub chat_id : String
  pub content : String
  pub media : List String
  pub session_key : String
  pub metadata : Map String

pub record OutboundMessage : Type 0 where
  pub channel : String
  pub chat_id : String
  pub content : String

abbrev pub default_inbound_cap : ℕ
default_inbound_cap = 1024

abbrev pub default_outbound_cap : ℕ
default_outbound_cap = 256

abbrev pub default_subscriber_cap : ℕ
default_subscriber_cap = 1024

-- Channels hold their oldest message first. `held` is the message that the goroutine has taken from
-- `buf` and waits to send to `consumer_ch`.
pub record Subscriber : Type 0 where
  pub id : ℕ
  pub buf : List OutboundMessage
  pub held : Option OutboundMessage
  pub consumer_ch : List OutboundMessage
  pub cancelled : Bool
  pub stopped : Bool
  pub dropped : ℕ

-- `detached` holds the subscribers that were removed: their goroutines may still run.
pub record MessageBus (H : Type 0) : Type 0 where
  pub inbound : List InboundMessage
  pub handlers : Map H
  pub subs : List Subscriber
  pub detached : List Subscriber
  pub next_id : ℕ
  pub done : Bool
  pub dropped_inbound : ℕ
  pub delivered_total : ℕ
  pub dropped_total : ℕ

pub record Metrics : Type 0 where
  pub inbound_dropped : ℕ
  pub outbound_delivered : ℕ
  pub outbound_dropped : ℕ
  pub subscriber_count : ℕ
  pub subscribers : List (ℕ × ℕ × ℕ)  -- id, dropped, buf_len

pub data Admission : Type 0 where
  queued closed full : Admission

pub data Delivery : Type 0 where
  delivered gone overflow : Delivery

-- The select of PublishOutbound for one subscriber.
pub delivery : Bool → Subscriber → Delivery
delivery pick s =
    if ltb (length s.buf) default_subscriber_cap
    then if s.cancelled && not pick then gone else delivered
    else if s.cancelled
    then gone
    else overflow

pub after_delivery : OutboundMessage → Delivery → Subscriber → Subscriber
after_delivery msg delivered s = record s { buf = s.buf ++ msg ∷ [] }
after_delivery msg gone s = s
after_delivery msg overflow s = record s { dropped = suc s.dropped }

pub offer : Bool → OutboundMessage → Subscriber → Subscriber
unfolding delivery after_delivery
offer pick msg s = after_delivery msg (delivery pick s) s

-- The steps of a subscriber's goroutine: each leaves the subscriber as it is where it cannot be taken.
pub take : Subscriber → Subscriber
take s = elim s.buf [
  | [] ↦ s
  | m ∷ ms ↦ elim s.held [
    | none ↦ if s.stopped then s else record s { buf = ms; held = some m }
    | some _ ↦ s
  ]
]

pub forward : Subscriber → Subscriber
forward s = elim s.held [
  | none ↦ s
  | some m ↦
      if ltb (length s.consumer_ch) default_outbound_cap
      then record s { consumer_ch = s.consumer_ch ++ m ∷ []; held = none }
      else s
]

pub time_out : Subscriber → Subscriber
time_out s = elim s.held [ none ↦ s | some m ↦ record s { held = none; dropped = suc s.dropped } ]

pub stop : Subscriber → Subscriber
stop s = if s.cancelled then record s { held = none; stopped = true } else s

pub cancel : Subscriber → Subscriber
cancel s = record s { cancelled = true }

-- The consumer's receive from its channel.
pub receive : Subscriber → Subscriber × Option OutboundMessage
receive s = elim s.consumer_ch [ [] ↦ (s, none) | m ∷ ms ↦ (record s { consumer_ch = ms }, some m) ]

pub count_delivery : {H : Type 0} → Delivery → MessageBus H → MessageBus H
count_delivery delivered mb = record mb { delivered_total = suc mb.delivered_total }
count_delivery gone mb = record mb { dropped_total = suc mb.dropped_total }
count_delivery overflow mb = record mb { dropped_total = suc mb.dropped_total }

-- What the bus counts when a subscriber's goroutine drops its message after the timeout (`time_out`).
pub count_time_out : {H : Type 0} → Subscriber → MessageBus H → MessageBus H
unfolding count_delivery
count_time_out s mb = elim s.held [ none ↦ mb | some m ↦ count_delivery overflow mb ]

module _ {H : Type 0} where
  pub new_message_bus : MessageBus H
  new_message_bus = record {
    inbound = [];
    handlers = [];
    subs = [];
    detached = [];
    next_id = 0;
    done = false;
    dropped_inbound = 0;
    delivered_total = 0;
    dropped_total = 0;
  }

  -- The case that the select of PublishInbound takes.
  pub admission : Bool → MessageBus H → Admission
  admission pick mb =
      if ltb (length mb.inbound) default_inbound_cap
      then if mb.done && not pick then closed else queued
      else if mb.done
      then closed
      else full

  pub after_admission : InboundMessage → Admission → MessageBus H → MessageBus H × Bool
  after_admission msg queued mb = (record mb { inbound = mb.inbound ++ msg ∷ [] }, true)
  after_admission msg closed mb = (mb, false)
  after_admission msg full mb = (record mb { dropped_inbound = suc mb.dropped_inbound }, false)

  pub publish_inbound : Bool → InboundMessage → MessageBus H → MessageBus H × Bool
  unfolding admission after_admission
  publish_inbound pick msg mb = after_admission msg (admission pick mb) mb

  -- `ctx_done`: the context is done and the select picks it.
  pub consume_inbound : Bool → MessageBus H → MessageBus H × Option InboundMessage
  consume_inbound ctx_done mb =
      if ctx_done
      then (mb, none)
      else elim mb.inbound [ [] ↦ (mb, none) | m ∷ ms ↦ (record mb { inbound = ms }, some m) ]

  -- One goroutine for each subscriber: the order does not matter, since each has a subscriber of its own.
  pub fan_out : (ℕ → Bool) → OutboundMessage → List Subscriber → MessageBus H → MessageBus H
  unfolding count_delivery delivery
  fan_out picks msg [] mb = mb
  fan_out picks msg (s ∷ subs) mb =
      fan_out picks msg subs (count_delivery (delivery (picks s.id) s) mb)

  pub publish_outbound : (ℕ → Bool) → OutboundMessage → MessageBus H → MessageBus H
  unfolding fan_out offer
  publish_outbound picks msg mb = if mb.done then mb else record (fan_out picks msg mb.subs mb) {
    subs = map (λ s. offer (picks s.id) msg s) mb.subs;
  }

  pub subscribe_outbound : MessageBus H → MessageBus H × ℕ
  subscribe_outbound mb =
      let id = suc mb.next_id in
      let s : Subscriber = record {
        id = id;
        buf = [];
        held = none;
        consumer_ch = [];
        cancelled = false;
        stopped = false;
        dropped = 0;
      } in
      (record mb { next_id = id; subs = mb.subs ++ s ∷ [] }, id)

  pub register_handler : String → H → MessageBus H → MessageBus H
  register_handler channel handler mb = record mb { handlers = insert channel handler mb.handlers }

  pub get_handler : String → MessageBus H → Option H
  get_handler channel mb = lookup channel mb.handlers

  pub close : MessageBus H → MessageBus H
  unfolding cancel
  close mb =
      if mb.done
      then mb
      else record mb { done = true; subs = []; detached = map cancel mb.subs ++ mb.detached }

  pub metrics : MessageBus H → Metrics
  metrics mb = record {
    inbound_dropped = mb.dropped_inbound;
    outbound_delivered = mb.delivered_total;
    outbound_dropped = mb.dropped_total;
    subscriber_count = length mb.subs;
    subscribers = map (λ s. (s.id, s.dropped, length s.buf)) mb.subs;
  }

  pub healthy : MessageBus H → Bool
  healthy mb = not (ltb 1000 mb.dropped_total) && not (ltb 100 mb.dropped_inbound)

-- The loop that takes a subscriber out of the list: what stays, and what is detached.
pub take_out : ℕ → List Subscriber → List Subscriber × List Subscriber
unfolding cancel
take_out id [] = ([], [])
take_out id (s ∷ subs) =
    let (rest, out) = take_out id subs in
    if s.id == id then (subs, cancel s ∷ []) else (s ∷ rest, out)

module _ {H : Type 0} where
  pub remove_subscriber : ℕ → MessageBus H → MessageBus H
  unfolding take_out
  remove_subscriber id mb =
      let (subs, out) = take_out id mb.subs in
      record mb { subs = subs; detached = out ++ mb.detached }
