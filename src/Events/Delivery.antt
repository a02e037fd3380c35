-- ===== src/Events/Delivery.antt =====
-- pkg/events/router.go: to whom an event goes, and in which order.
use vikram.Base.{
  Bool, true, false, not, ◌&&◌, ◌≡◌, refl, ◌∙◌, List, [], ◌∷◌, arith, if◌then◌else◌, all, keep,
  count_if,
}
use vikram.Base.Map.{values}
use vikram.Events.{Event, Subscription, Router, matches_filters, sort_subscriptions, dispatch, emit}
use vikram.Events.Order.{is_sorted, sort_subscriptions-is_sorted, count_if-sort_subscriptions}

matches_filters-all :
    (e : Event) (fs : List (Event → Bool)) → matches_filters e fs ≡ all (λ f. f e) fs
unfolding matches_filters
matches_filters-all e [] = refl
matches_filters-all e (f ∷ fs) = ground (arith, matches_filters-all e fs)

module _ {H : Type 0} where
  count_if-keep :
      (p : Subscription H → Bool) (e : Event) (subs : List (Subscription H))
      → count_if p (keep (λ s. matches_filters e s.filters) subs)
        ≡ count_if (λ s. p s && all (λ f. f e) s.filters) subs
  count_if-keep p e [] = refl
  count_if-keep p e (s ∷ ss) = ground (arith, count_if-keep p e ss, matches_filters-all e s.filters)

module _ {H S : Type 0} where
  -- A running router starts the handlers of exactly the subscriptions all of whose filters pass the
  -- event, each as often as it is stored, in the order of their priorities; one that is not running
  -- starts none.
  pub emit_lem :
      (e : Event) (r : Router H S)
      → (is_sorted (emit e r) ≡ true)
        × ((p : Subscription H → Bool)
            → count_if p (emit e r) ≡ (
                if r.running
                then count_if (λ s. p s && all (λ f. f e) s.filters) (values r.subscriptions)
                else 0))
  unfolding emit dispatch
  emit_lem e r = (sorted r.running, λ p. counted p r.running)
    where
      matched : List (Subscription H)
      matched = keep (λ s. matches_filters e s.filters) (values r.subscriptions)

      sorted : (b : Bool) → is_sorted (if not b then [] else sort_subscriptions matched) ≡ true
      sorted true = sort_subscriptions-is_sorted matched
      sorted false = refl

      counted :
          (p : Subscription H → Bool) (b : Bool)
          → count_if p (if not b then [] else sort_subscriptions matched) ≡ (
              if b
              then count_if (λ s. p s && all (λ f. f e) s.filters) (values r.subscriptions)
              else 0)
      counted p true =
          count_if-sort_subscriptions p matched ∙ count_if-keep p e (values r.subscriptions)
      counted p false = refl
