-- ===== src/Canonical/Order.antt =====
-- The canonical text of a value does not depend on the order in which its fields were inserted.
use mineverse.Prelude.{
  false, Option, none, some, List, [], ◌∷◌, ◌≡◌, refl, ap, ◌∙◌, arith, Bool-cases, inl, inr,
}
use mineverse.Prelude.Texts.{same_text, text_leb_total, text_leb_antisym, text_leb_trans}
use mineverse.Canonical.Quote.{Text}
use mineverse.Canonical.{
  Json, array, object, Items, no_items, item, Fields, no_fields, field, is_undefined, Entry,
  insert_entry, add_entry, canonicalize, item_texts, entries,
}

mutual
  -- The same value, but for the order of fields, at any depth.
  pub data Reorders : Json → Json → Type 0 where
    same : (v : Json) → Reorders v v
    follows : (u v w : Json) → Reorders u v → Reorders v w → Reorders u w
    in_array : (xs ys : Items) → ReordersItems xs ys → Reorders (array xs) (array ys)
    in_object : (fs gs : Fields) → ReordersFields fs gs → Reorders (object fs) (object gs)

  pub data ReordersItems : Items → Items → Type 0 where
    at_end : ReordersItems no_items no_items
    both_items :
        (v w : Json) (xs ys : Items)
        → Reorders v w
        → ReordersItems xs ys
        → ReordersItems (item v xs) (item w ys)

  pub data ReordersFields : Fields → Fields → Type 0 where
    without_fields : ReordersFields no_fields no_fields
    both_fields :
        (k : Text) (v w : Json) (fs gs : Fields)
        → Reorders v w
        → ReordersFields fs gs
        → ReordersFields (field k v fs) (field k w gs)
    swaps :
        (k j : Text) (v w : Json) (fs : Fields)
        → same_text k j ≡ false
        → ReordersFields (field k v (field j w fs)) (field j w (field k v fs))
    then_fields :
        (fs gs hs : Fields) → ReordersFields fs gs → ReordersFields gs hs → ReordersFields fs hs

-- Of two different keys, just one comes before the other.
insert_entry_comm :
    (e f : Entry) (es : List Entry)
    → same_text e.0 f.0 ≡ false
    → insert_entry e (insert_entry f es) ≡ insert_entry f (insert_entry e es)
unfolding insert_entry
insert_entry_comm e f [] h =
    ground (arith, text_leb_total e.0 f.0, text_leb_total f.0 e.0, text_leb_antisym e.0 f.0)
insert_entry_comm e f (g ∷ gs) h = ground (
  arith,
  text_leb_total e.0 f.0,
  text_leb_total f.0 e.0,
  text_leb_antisym e.0 f.0,
  text_leb_total e.0 g.0,
  text_leb_total f.0 g.0,
  text_leb_trans e.0 f.0 g.0,
  text_leb_trans f.0 e.0 g.0,
  insert_entry_comm e f gs,
)

add_entry_comm :
    (k j : Text) (t u : Option Text) (es : Option (List Entry))
    → same_text k j ≡ false
    → add_entry k t (add_entry j u es) ≡ add_entry j u (add_entry k t es)
add_entry_comm k j none none none h = refl
add_entry_comm k j none none (some es) h = refl
add_entry_comm k j none (some u) none h = refl
add_entry_comm k j none (some u) (some es) h = refl
add_entry_comm k j (some t) none none h = refl
add_entry_comm k j (some t) none (some es) h = refl
add_entry_comm k j (some t) (some u) none h = refl
add_entry_comm k j (some t) (some u) (some es) h = ap some (insert_entry_comm (k, t) (j, u) es h)

entries-swap :
    (k j : Text) (v w : Json) (fs : Fields)
    → same_text k j ≡ false
    → entries (field k v (field j w fs)) ≡ entries (field j w (field k v fs))
unfolding canonicalize
entries-swap k j v w fs h = elim (Bool-cases (is_undefined v)) [
  | inl v_out ↦ rw v_out refl
  | inr v_in ↦ elim (Bool-cases (is_undefined w)) [
    | inl w_out ↦ rw (v_in, w_out) refl
    | inr w_in ↦
        rw (v_in, w_in) (add_entry_comm k j (canonicalize v) (canonicalize w) (entries fs) h)
  ]
]

-- Reordering keeps what is undefined.
is_undefined-Reorders : (v w : Json) → Reorders v w → is_undefined v ≡ is_undefined w
is_undefined-Reorders _ _ (same v) = refl
is_undefined-Reorders _ _ (follows u v w r q) =
    is_undefined-Reorders u v r ∙ is_undefined-Reorders v w q
is_undefined-Reorders _ _ (in_array xs ys r) = refl
is_undefined-Reorders _ _ (in_object fs gs r) = refl

array-text :
    (xs ys : Items)
    → item_texts xs ≡ item_texts ys
    → canonicalize (array xs) ≡ canonicalize (array ys)
unfolding canonicalize
array-text xs ys e = rw e refl

object-text :
    (fs gs : Fields) → entries fs ≡ entries gs → canonicalize (object fs) ≡ canonicalize (object gs)
unfolding canonicalize
object-text fs gs e = rw e refl

items-text :
    (v w : Json) (xs ys : Items)
    → canonicalize v ≡ canonicalize w
    → item_texts xs ≡ item_texts ys
    → item_texts (item v xs) ≡ item_texts (item w ys)
unfolding canonicalize
items-text v w xs ys e k = rw (e, k) refl

fields-text :
    (k : Text) (v w : Json) (fs gs : Fields)
    → is_undefined v ≡ is_undefined w
    → canonicalize v ≡ canonicalize w
    → entries fs ≡ entries gs
    → entries (field k v fs) ≡ entries (field k w gs)
unfolding canonicalize
fields-text k v w fs gs u e f = rw (u, e, f) refl

mutual
  Reorders-text : (v w : Json) → Reorders v w → canonicalize v ≡ canonicalize w
  Reorders-text _ _ (same v) = refl
  Reorders-text _ _ (follows u v w r q) = Reorders-text u v r ∙ Reorders-text v w q
  Reorders-text _ _ (in_array xs ys r) = array-text xs ys (ReordersItems-texts xs ys r)
  Reorders-text _ _ (in_object fs gs r) = object-text fs gs (ReordersFields-entries fs gs r)

  ReordersItems-texts : (xs ys : Items) → ReordersItems xs ys → item_texts xs ≡ item_texts ys
  ReordersItems-texts _ _ at_end = refl
  ReordersItems-texts _ _ (both_items v w xs ys r q) =
      items-text v w xs ys (Reorders-text v w r) (ReordersItems-texts xs ys q)

  ReordersFields-entries : (fs gs : Fields) → ReordersFields fs gs → entries fs ≡ entries gs
  ReordersFields-entries _ _ without_fields = refl
  ReordersFields-entries _ _ (both_fields k v w fs gs r q) =
      fields-text k v w fs gs (is_undefined-Reorders v w r) (Reorders-text v w r)
        (ReordersFields-entries fs gs q)
  ReordersFields-entries _ _ (swaps k j v w fs h) = entries-swap k j v w fs h
  ReordersFields-entries _ _ (then_fields fs gs hs r q) =
      ReordersFields-entries fs gs r ∙ ReordersFields-entries gs hs q

-- Two values that differ in the order of fields only, at any depth, have the same canonical text,
-- or both have none.
pub canonicalize-Reorders : (v w : Json) → Reorders v w → canonicalize v ≡ canonicalize w
canonicalize-Reorders v w r = Reorders-text v w r
