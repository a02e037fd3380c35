-- ===== src/Events/Ids.antt =====
-- pkg/events/router.go: the id of a new subscription is made of its name and of the number of
-- subscriptions.
use vikram.Base.{
  ℕ, suc, String, Bool, ◌≡◌, ◌≢◌, sym, ap, subst, ◌∙◌, List, none, some, arith, length, str_ne,
}
use vikram.Base.Map.{
  Map, lookup, insert, delete, Distinct, lookup-insert, lookup-insert_self, insert-Distinct,
  length-insert, length-delete,
}
use vikram.Events.{
  Event, Subscription, Router, subscribe, unsubscribe, subscribe_with_priority, priority_normal,
}

length_swapped :
    {V : Type 0} (m : Map V) (j k : String) (v w : V)
    → Distinct m
    → lookup j m ≡ none
    → lookup k m ≡ none
    → j ≢ k
    → length (delete j (insert k w (insert j v m))) ≡ suc (length m)
length_swapped m j k v w d free_j free_k ne =
    let still_free : lookup k (insert j v m) ≡ none =
      lookup-insert j k v m ∙ rw (str_ne j k ne) free_k in
    let stored : lookup j (insert k w (insert j v m)) ≡ some v =
      lookup-insert k j w (insert j v m)
      ∙ rw (str_ne k j (λ e. ne (sym e))) (lookup-insert_self j v m) in
    let removed =
      length-delete j v (insert k w (insert j v m))
        (insert-Distinct k w (insert j v m) (insert-Distinct j v m d)) stored in
    omega (arith, removed, length-insert k w (insert j v m) still_free, length-insert j v m free_j)

stored_at :
    {V : Type 0} (entry : String → V) (m : Map V) {j k : String}
    → j ≡ k
    → lookup k (insert j (entry j) m) ≡ some (entry k)
stored_at entry m {j} e =
    subst (λ id. lookup id (insert j (entry j) m) ≡ some (entry id)) e
      (lookup-insert_self j (entry j) m)

module _ {H S : Type 0} (sub_id : String → ℕ → String) where
  -- Subscribe `a` and `b`, unsubscribe the first, and subscribe a second handler under the name `b`:
  -- where the ids were free and distinct, the new subscription gets the id of the one that still
  -- stands and takes its place, so the handler that stood there gets no more events.
  pub subscribe-unsubscribe :
      (r : Router H S) (a b : String) (h g g' : H) (fs gs gs' : List (Event → Bool))
      → Distinct r.subscriptions
      → lookup (sub_id a (length r.subscriptions)) r.subscriptions ≡ none
      → lookup (sub_id b (suc (length r.subscriptions))) r.subscriptions ≡ none
      → sub_id a (length r.subscriptions) ≢ sub_id b (suc (length r.subscriptions))
      → let first = subscribe sub_id a h fs r in
        let second = subscribe sub_id b g gs first.0 in
        let third = subscribe sub_id b g' gs' (unsubscribe first.1 second.0) in
        (third.1 ≡ second.1)
        × (lookup second.1 third.0.subscriptions
            ≡ some (record {
              id = second.1;
              name = b;
              handler = g';
              filters = gs';
              priority = priority_normal;
            }))
  unfolding subscribe subscribe_with_priority unsubscribe
  subscribe-unsubscribe r a b h g g' fs gs gs' d free_a free_b ne =
      let one : Subscription H = record {
        id = sub_id a (length r.subscriptions);
        name = a;
        handler = h;
        filters = fs;
        priority = priority_normal;
      } in
      let grown : length (insert (sub_id a (length r.subscriptions)) one r.subscriptions)
          ≡ suc (length r.subscriptions) =
        length-insert _ one r.subscriptions free_a in
      let same = ap (sub_id b) (
        length_swapped r.subscriptions (sub_id a (length r.subscriptions))
          (sub_id b (length (insert (sub_id a (length r.subscriptions)) one r.subscriptions))) one _
          d free_a (rw grown free_b) (rw grown ne)
        ∙ sym grown) in
      (
        same,
        stored_at
            (λ id. record {
              id = id;
              name = b;
              handler = g';
              filters = gs';
              priority = priority_normal;
            })
            _ same,
      )
