-- ===== src/Events.antt =====
-- pkg/events/router.go and types.go: the event router. `H` is the type of handlers and `S` that of
-- event sources. `sub_id` stands for fmt.Sprintf("sub_%s_%d"), `source_name` for a source's `Name`.
-- `dispatch` gives the subscriptions whose handlers are started, in the order of the `go` statements;
-- the goroutines, their limit and the event queue, which nothing uses, are left out.
pub mod Order
pub mod Delivery
pub mod Ids
mod Examples
use vikram.Base.{
  ℕ, zero, suc, ◌+◌, String, Bool, true, false, not, ◌&&◌, List, [], ◌∷◌, Option, none, some, ◌=s=◌,
  if◌then◌else◌, length, keep,
}
use vikram.Base.Int.{ℤ, pos, ltb_ℤ, leb_ℤ}
use vikram.Base.Map.{Map, lookup, insert, delete, values}
use vikram.Base.Result.{Result, ok, err}
use vikram.Base.Time.{Time}

pub record Event : Type 0 where
  pub id : String
  pub kind : String
  pub source : String
  pub priority : ℤ
  pub timestamp : Time
  pub channel : String
  pub chat_id : String

pub filter_by_kind : String → Event → Bool
filter_by_kind kind e = e.kind =s= kind

pub filter_by_source : String → Event → Bool
filter_by_source source e = e.source =s= source

pub filter_by_priority : ℤ → Event → Bool
filter_by_priority max_priority e = leb_ℤ e.priority max_priority

pub with_channel : String → String → Event → Event
with_channel channel chat_id e = record e { channel = channel; chat_id = chat_id }

abbrev pub priority_normal : ℤ
priority_normal = pos 2

pub record Subscription (H : Type 0) : Type 0 where
  pub id : String
  pub name : String
  pub handler : H
  pub filters : List (Event → Bool)
  pub priority : ℤ

pub record Router (H S : Type 0) : Type 0 where
  pub sources : Map S
  pub subscriptions : Map (Subscription H)
  pub running : Bool

pub data Error : Type 0 where
  already_registered : String → Error
  already_running : Error

module _ {H S : Type 0} where
  pub new_router : Router H S
  new_router = record { sources = []; subscriptions = []; running = false }

  pub register_source : (S → String) → S → Router H S → Router H S × Option Error
  register_source source_name source r = elim (lookup (source_name source) r.sources) [
    | none ↦ (record r { sources = insert (source_name source) source r.sources }, none)
    | some existing ↦ (r, some (already_registered (source_name source)))
  ]

  pub subscribe_with_priority :
      (String → ℕ → String)
      → String
      → ℤ
      → H
      → List (Event → Bool)
      → Router H S
      → Router H S × String
  subscribe_with_priority sub_id name priority handler filters r =
      let id = sub_id name (length r.subscriptions) in
      (
        record r {
          subscriptions =
              insert id
                (record {
                  id = id;
                  name = name;
                  handler = handler;
                  filters = filters;
                  priority = priority;
                })
                r.subscriptions;
        },
        id,
      )

  pub subscribe :
      (String → ℕ → String) → String → H → List (Event → Bool) → Router H S → Router H S × String
  unfolding subscribe_with_priority
  subscribe sub_id name handler filters r =
      subscribe_with_priority sub_id name priority_normal handler filters r

  pub unsubscribe : String → Router H S → Router H S
  unsubscribe id r = record r { subscriptions = delete id r.subscriptions }

  pub start : Router H S → Router H S × Option Error
  start r = if r.running then (r, some already_running) else (record r { running = true }, none)

  pub stop : Router H S → Router H S
  stop r = if not r.running then r else record r { running = false }

  pub is_running : Router H S → Bool
  is_running r = r.running

  pub source_count : Router H S → ℕ
  source_count r = length r.sources

  pub subscription_count : Router H S → ℕ
  subscription_count r = length r.subscriptions

pub matches_filters : Event → List (Event → Bool) → Bool
matches_filters e [] = true
matches_filters e (f ∷ fs) = if not (f e) then false else matches_filters e fs

module _ {H : Type 0} where
  -- The inner loop of `sortSubscriptions`, which moves an element to the left. The part to its left is
  -- given from its right end on.
  pub move_left : Subscription H → List (Subscription H) → List (Subscription H)
  move_left s [] = s ∷ []
  move_left s (t ∷ ts) = if ltb_ℤ s.priority t.priority then t ∷ move_left s ts else s ∷ t ∷ ts

  -- The outer loop; `sorted` is the part to the left, from its right end on.
  pub sort_from : List (Subscription H) → List (Subscription H) → List (Subscription H)
  unfolding move_left
  sort_from sorted [] = sorted
  sort_from sorted (s ∷ ss) = sort_from (move_left s sorted) ss

  pub reverse_onto : List (Subscription H) → List (Subscription H) → List (Subscription H)
  reverse_onto acc [] = acc
  reverse_onto acc (s ∷ ss) = reverse_onto (s ∷ acc) ss

  pub sort_subscriptions : List (Subscription H) → List (Subscription H)
  unfolding sort_from reverse_onto
  sort_subscriptions subs = reverse_onto [] (sort_from [] subs)

module _ {H S : Type 0} where
  pub dispatch : Event → Router H S → List (Subscription H)
  unfolding matches_filters sort_subscriptions
  dispatch e r =
      sort_subscriptions (keep (λ s. matches_filters e s.filters) (values r.subscriptions))

  -- `Emit` drops the event if the router is not running.
  pub emit : Event → Router H S → List (Subscription H)
  unfolding dispatch
  emit e r = if not r.running then [] else dispatch e r
