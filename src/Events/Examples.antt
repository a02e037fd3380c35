-- ===== src/Events/Examples.antt =====
-- Runs of pkg/events/router.go, with numbers as handlers.
use Prim.Native.String.{◌++◌ as text_append}
use vikram.Base.{
  ℕ, suc, zero, String, Bool, true, ◌&&◌, [], ◌∷◌, ◌≡◌, ◌≢◌, refl, ◌=s=◌, ne_by_test, all, count_if,
  length, if◌then◌else◌,
}
use vikram.Base.Int.{pos}
use vikram.Base.Map.{values}
use vikram.Events.{
  Event, Subscription, Router, subscribe, unsubscribe, emit, dispatch, filter_by_kind,
  matches_filters, sort_subscriptions,
}
use vikram.Events.Order.{is_sorted}
use vikram.Events.Delivery.{emit_lem}

-- One letter for each number, in place of its decimal digits.
abbrev tick : ℕ → String
tick zero = ""
tick (suc n) = text_append "i" (tick n)

abbrev sub_id : String → ℕ → String
sub_id name n = text_append "sub_" (text_append name (text_append "_" (tick n)))

abbrev cron_event : Event
cron_event = record {
  id = "e";
  kind = "cron";
  source = "timer";
  priority = pos 1;
  timestamp = 5;
  channel = "";
  chat_id = "";
}

abbrev empty_router : Router ℕ ℕ
empty_router = record { sources = []; subscriptions = []; running = true }

abbrev crowded : Router ℕ ℕ
crowded = record empty_router {
  subscriptions =
      ("a", record { id = "a"; name = "a"; handler = 1; filters = []; priority = pos 3 })
      ∷ (
        "b",
        record {
          id = "b";
          name = "b";
          handler = 2;
          filters = filter_by_kind "cron" ∷ [];
          priority = pos 0;
        },
      )
      ∷ (
        "c",
        record {
          id = "c";
          name = "c";
          handler = 3;
          filters = filter_by_kind "webhook" ∷ [];
          priority = pos 1;
        },
      )
      ∷ [];
}

emitted_twice : length (emit cron_event crowded) ≡ 2
unfolding emit dispatch matches_filters filter_by_kind sort_subscriptions ◌=s=◌
emitted_twice = refl

emit_lem_example :
    (is_sorted (emit cron_event crowded) ≡ true)
    × ((p : Subscription ℕ → Bool)
        → count_if p (emit cron_event crowded) ≡ (
            if crowded.running
            then count_if
                (λ s. p s && all (λ f. f cron_event) s.filters)
                (values crowded.subscriptions)
            else 0))
emit_lem_example = emit_lem cron_event crowded

ids_differ : sub_id "x" 0 ≢ sub_id "y" 1
unfolding ◌=s=◌
ids_differ = ne_by_test (sub_id "x" 0) (sub_id "y" 1) refl

abbrev after_first : Router ℕ ℕ × String
after_first = subscribe sub_id "x" 1 [] empty_router

abbrev after_second : Router ℕ ℕ × String
after_second = subscribe sub_id "y" 2 [] after_first.0

abbrev after_third : Router ℕ ℕ × String
after_third = subscribe sub_id "y" 3 [] (unsubscribe after_first.1 after_second.0)
