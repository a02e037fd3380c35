-- ===== src/Events/Order.antt =====
-- pkg/events/router.go, sortSubscriptions: the result is in the order of the priorities and has the
-- same elements.
use vikram.Base.{
  ◌+◌, Bool, true, not, ◌&&◌, ◌≡◌, refl, List, [], ◌∷◌, arith, if◌then◌else◌, all, count_if,
}
use vikram.Base.Int.{ltb_ℤ}
use vikram.Events.{Subscription, move_left, sort_from, reverse_onto, sort_subscriptions}

module _ {H : Type 0} where
  -- The subscription goes before none of the others, and after none of them.
  abbrev pub not_above : Subscription H → Subscription H → Bool
  not_above s t = not (ltb_ℤ t.priority s.priority)

  abbrev pub is_sorted : List (Subscription H) → Bool
  is_sorted [] = true
  is_sorted (s ∷ ss) = all (not_above s) ss && is_sorted ss

  -- Sorted from the right end on.
  abbrev falls : List (Subscription H) → Bool
  falls [] = true
  falls (s ∷ ss) = all (λ t. not_above t s) ss && falls ss

  all-move_left :
      (p : Subscription H → Bool) (s : Subscription H) (ts : List (Subscription H))
      → all p (move_left s ts) ≡ (p s && all p ts)
  unfolding move_left
  all-move_left p s [] = refl
  all-move_left p s (t ∷ ts) = ground (arith, all-move_left p s ts)

  -- What is not above `t` is not above anything `t` is not above.
  all-weaken :
      (s t : Subscription H) (us : List (Subscription H))
      → not_above t s ≡ true
      → all (λ u. not_above u t) us ≡ true
      → all (λ u. not_above u s) us ≡ true
  all-weaken s t [] h a = refl
  all-weaken s t (u ∷ us) h a = ground (arith, all-weaken s t us h)

  move_left-falls :
      (s : Subscription H) (ts : List (Subscription H))
      → falls ts ≡ true
      → falls (move_left s ts) ≡ true
  unfolding move_left
  move_left-falls s [] h = refl
  move_left-falls s (t ∷ ts) h =
      ground
        (arith, move_left-falls s ts, all-move_left (λ u. not_above u t) s ts, all-weaken s t ts)

  sort_from-falls :
      (sorted ss : List (Subscription H)) → falls sorted ≡ true → falls (sort_from sorted ss) ≡ true
  unfolding sort_from
  sort_from-falls sorted [] h = h
  sort_from-falls sorted (s ∷ ss) h =
      sort_from-falls (move_left s sorted) ss (move_left-falls s sorted h)

  -- `all` of the accumulator may come before all that is still to be put on it.
  abbrev below : List (Subscription H) → List (Subscription H) → Bool
  below [] acc = true
  below (s ∷ ss) acc = all (not_above s) acc && below ss acc

  below_cons :
      (s : Subscription H) (ss acc : List (Subscription H))
      → all (λ t. not_above t s) ss ≡ true
      → below ss acc ≡ true
      → below ss (s ∷ acc) ≡ true
  below_cons s [] acc h b = refl
  below_cons s (t ∷ ts) acc h b = ground (arith, below_cons s ts acc)

  reverse_onto-is_sorted :
      (acc ss : List (Subscription H))
      → falls ss ≡ true
      → is_sorted acc ≡ true
      → below ss acc ≡ true
      → is_sorted (reverse_onto acc ss) ≡ true
  unfolding reverse_onto
  reverse_onto-is_sorted acc [] f a b = a
  reverse_onto-is_sorted acc (s ∷ ss) f a b =
      reverse_onto-is_sorted (s ∷ acc) ss (ground arith) (ground arith)
        (below_cons s ss acc (ground arith) (ground arith))

  below_nil : (ss : List (Subscription H)) → below ss [] ≡ true
  below_nil [] = refl
  below_nil (s ∷ ss) = below_nil ss

  -- Each subscription stands before those of a greater priority number.
  pub sort_subscriptions-is_sorted :
      (subs : List (Subscription H)) → is_sorted (sort_subscriptions subs) ≡ true
  unfolding sort_subscriptions
  sort_subscriptions-is_sorted subs =
      reverse_onto-is_sorted [] (sort_from [] subs) (sort_from-falls [] subs refl) refl
        (below_nil (sort_from [] subs))

  count_if-move_left :
      (p : Subscription H → Bool) (s : Subscription H) (ts : List (Subscription H))
      → count_if p (move_left s ts) ≡ (if p s then 1 else 0) + count_if p ts
  unfolding move_left
  count_if-move_left p s [] = refl
  count_if-move_left p s (t ∷ ts) = ground (arith, count_if-move_left p s ts)

  count_if-sort_from :
      (p : Subscription H → Bool) (sorted ss : List (Subscription H))
      → count_if p (sort_from sorted ss) ≡ count_if p sorted + count_if p ss
  unfolding sort_from
  count_if-sort_from p sorted [] = omega arith
  count_if-sort_from p sorted (s ∷ ss) =
      ground (arith, count_if-sort_from p (move_left s sorted) ss, count_if-move_left p s sorted)

  count_if-reverse_onto :
      (p : Subscription H → Bool) (acc ss : List (Subscription H))
      → count_if p (reverse_onto acc ss) ≡ count_if p acc + count_if p ss
  unfolding reverse_onto
  count_if-reverse_onto p acc [] = omega arith
  count_if-reverse_onto p acc (s ∷ ss) = ground (arith, count_if-reverse_onto p (s ∷ acc) ss)

  pub count_if-sort_subscriptions :
      (p : Subscription H → Bool) (subs : List (Subscription H))
      → count_if p (sort_subscriptions subs) ≡ count_if p subs
  unfolding sort_subscriptions
  count_if-sort_subscriptions p subs =
      omega (arith, count_if-reverse_onto p [] (sort_from [] subs), count_if-sort_from p [] subs)
