-- ===== src/Bus/Examples.antt =====
-- Runs of pkg/bus/bus.go with handlers that are numbers.
use vikram.Base.{ℕ, true, false, ◌≡◌, refl, List, [], ◌∷◌, ◌++◌, none}
use vikram.Bus.{
  InboundMessage, OutboundMessage, Subscriber, MessageBus, new_message_bus, subscribe_outbound,
  publish_outbound, close,
}
use vikram.Bus.Flow.{
  Sublist, Step, run, offers, in_flight, offered, taken, forwarded, timed_out, received,
  run-Sublist,
}
use vikram.Bus.Inbound.{Call, publish, consume, close_bus, Kept, run_calls, run_calls-Kept}

abbrev hello : OutboundMessage
hello = record { channel = "telegram"; chat_id = "7"; content = "hello" }

abbrev again : OutboundMessage
again = record hello { content = "again" }

abbrev question : InboundMessage
question = record {
  channel = "telegram";
  sender_id = "u";
  chat_id = "7";
  content = "when?";
  media = [];
  session_key = "s";
  metadata = [];
}

abbrev two_subscribers : MessageBus ℕ
two_subscribers = (subscribe_outbound (subscribe_outbound new_message_bus).0).0

abbrev fresh : Subscriber
fresh = record {
  id = 1;
  buf = [];
  held = none;
  consumer_ch = [];
  cancelled = false;
  stopped = false;
  dropped = 0;
}

abbrev steps : List Step
steps =
    received ∷ forwarded ∷ taken ∷ offered true again ∷ timed_out ∷ taken ∷ offered true hello ∷ []

run-Sublist_example :
    Sublist ((run fresh steps).1 ++ in_flight (run fresh steps).0) (in_flight fresh ++ offers steps)
run-Sublist_example = run-Sublist fresh steps

received_again : (run fresh steps).1 ≡ again ∷ []
unfolding run
received_again = refl

abbrev calls : List Call
calls =
    publish true question
    ∷ close_bus
    ∷ consume false
    ∷ publish true question
    ∷ publish false question
    ∷ []

run_calls-Kept_example : Kept (run_calls {H = ℕ} calls)
run_calls-Kept_example = run_calls-Kept calls

both_delivered : (publish_outbound (λ _. true) hello two_subscribers).delivered_total ≡ 2
unfolding publish_outbound subscribe_outbound new_message_bus
both_delivered = refl

closed_subscribers : (close two_subscribers).subs ≡ []
unfolding close subscribe_outbound new_message_bus
closed_subscribers = refl
