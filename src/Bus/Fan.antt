-- ===== src/Bus/Fan.antt =====
-- pkg/bus/bus.go: PublishOutbound over all subscribers.
use vikram.Base.{
  ℕ, ◌+◌, Bool, true, false, ◌≡◌, refl, List, [], ◌∷◌, map, length, length-append, arith,
  if◌then◌else◌,
}
use vikram.Bus.{
  OutboundMessage, Subscriber, MessageBus, Delivery, delivered, gone, overflow, delivery,
  after_delivery, offer, count_delivery, fan_out, publish_outbound,
}

-- The messages in the subscribers' buffers, and those that the subscribers have dropped.
abbrev pub buffered : List Subscriber → ℕ
buffered [] = 0
buffered (s ∷ subs) = length s.buf + buffered subs

module _ {H : Type 0} (picks : ℕ → Bool) (msg : OutboundMessage) where
  one_counted :
      (d : Delivery) (s : Subscriber) (mb : MessageBus H)
      → (length (after_delivery msg d s).buf + mb.delivered_total
          ≡ length s.buf + (count_delivery d mb).delivered_total)
        × ((count_delivery d mb).delivered_total + (count_delivery d mb).dropped_total
            ≡ mb.delivered_total + mb.dropped_total + 1)
  unfolding after_delivery count_delivery
  one_counted delivered s mb = (omega (arith, length-append s.buf (msg ∷ [])), omega arith)
  one_counted gone s mb = (refl, omega arith)
  one_counted overflow s mb = (refl, omega arith)

  fan_out_lem :
      (subs : List Subscriber) (mb : MessageBus H)
      → (buffered (map (λ s. offer (picks s.id) msg s) subs) + mb.delivered_total
          ≡ buffered subs + (fan_out picks msg subs mb).delivered_total)
        × ((fan_out picks msg subs mb).delivered_total + (fan_out picks msg subs mb).dropped_total
            ≡ mb.delivered_total + mb.dropped_total + length subs)
  unfolding fan_out offer
  fan_out_lem [] mb = (refl, omega arith)
  fan_out_lem (s ∷ subs) mb =
      let d = delivery (picks s.id) s in
      let (grown, counted) = fan_out_lem subs (count_delivery d mb) in
      let (grown_one, counted_one) = one_counted d s mb in (omega arith, omega arith)

  abbrev Counts : Bool → MessageBus H → MessageBus H → Type 0
  Counts done mb r =
      (buffered r.subs + mb.delivered_total ≡ buffered mb.subs + r.delivered_total)
      × (r.delivered_total + r.dropped_total
          ≡ mb.delivered_total + mb.dropped_total + (if done then 0 else length mb.subs))

  publish-Counts :
      (done : Bool) (mb : MessageBus H)
      → Counts done mb (
          if done then mb else record (fan_out picks msg mb.subs mb) {
            subs = map (λ s. offer (picks s.id) msg s) mb.subs;
          })
  publish-Counts true mb = (refl, omega arith)
  publish-Counts false mb = fan_out_lem mb.subs mb

  -- An open bus counts a message once for each subscriber, as delivered or as dropped, and as delivered
  -- exactly as often as it was put in a subscriber's buffer; a closed bus counts nothing and changes no
  -- buffer.
  pub publish_outbound_lem :
      (mb : MessageBus H)
      → let r = publish_outbound picks msg mb in
        (buffered r.subs + mb.delivered_total ≡ buffered mb.subs + r.delivered_total)
        × (r.delivered_total + r.dropped_total
            ≡ mb.delivered_total + mb.dropped_total + (if mb.done then 0 else length mb.subs))
  unfolding publish_outbound
  publish_outbound_lem mb = publish-Counts mb.done mb
