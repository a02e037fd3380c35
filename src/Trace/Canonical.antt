-- ===== src/Trace/Canonical.antt =====
-- pkg/telemetry/trace_verifier.go: JSON in canonical form, with sorted keys. An object is a Go map, as
-- a list of members with distinct keys. `quote` and `marshal` are json.Marshal on a string and on
-- another value; `none` is its error.
use Prim.Native.String.{◌++◌ as text_append}
use mathlib.Core.Option
use vikram.Base.{String, List, [], ◌∷◌, Option, none, some}
use vikram.Base.Map.{Map, lookup}

mutual
  pub data Json (L : Type 0) : Type 0 where
    leaf : L → Json L
    object : Members L → Json L
    array : Items L → Json L

  pub data Members (L : Type 0) : Type 0 where
    no_members : Members L
    member : String → Json L → Members L → Members L

  pub data Items (L : Type 0) : Type 0 where
    no_items : Items L
    item : Json L → Items L → Items L

abbrev pub both : {A B C : Type 0} → (A → B → C) → Option A → Option B → Option C
both f (some a) (some b) = some (f a b)
both f _ _ = none

abbrev pub keys : {A : Type 0} → Map A → List String
keys [] = []
keys ((k, v) ∷ m) = k ∷ keys m

-- The members in the order of the sorted keys; a comma before each but the first.
pub write_members : (String → String) → String → List String → Map String → String
write_members quote comma [] texts = ""
write_members quote comma (k ∷ ks) texts = text_append comma (
    text_append (quote k) (
      text_append ":" (
        text_append (elim (lookup k texts) [ none ↦ "" | some v ↦ v ])
          (write_members quote "," ks texts))))

pub write_object : (String → String) → (List String → List String) → Map String → String
unfolding write_members
write_object quote sort texts =
    text_append "{" (text_append (write_members quote "" (sort (keys texts)) texts) "}")

abbrev pub write_item : String → String → String → String
write_item comma text rest = text_append comma (text_append text rest)

abbrev array_text : String → String
array_text items = text_append "[" (text_append items "]")

module _ {L : Type 0} (quote : String → String) (marshal : L → Option String)
    (sort : List String → List String) where
  mutual
    unfolding write_object

    pub canonical_marshal : Json L → Option String
    canonical_marshal (leaf l) = marshal l
    canonical_marshal (object members) =
        Option.map (write_object quote sort) (marshal_members members)
    canonical_marshal (array items) = Option.map array_text (marshal_items "" items)

    -- The texts of the values. The source computes each where it writes it.
    pub marshal_members : Members L → Option (Map String)
    marshal_members no_members = some []
    marshal_members (member k v members) =
        both (λ text texts. (k, text) ∷ texts) (canonical_marshal v) (marshal_members members)

    pub marshal_items : String → Items L → Option String
    marshal_items comma no_items = some ""
    marshal_items comma (item v items) =
        both (write_item comma) (canonical_marshal v) (marshal_items "," items)

  abbrev or_empty : Option String → String
  or_empty none = "{}"
  or_empty (some text) = text

  -- `none` is a nil map.
  unfoldable pub canonical_json : Option (Members L) → String
  unfolding canonical_marshal
  canonical_json none = "{}"
  canonical_json (some members) = or_empty (canonical_marshal (object members))
