-- ===== src/Canonical.antt =====
-- src/util/canonical.js: the serialiser. A text is the list of its UTF-16 code units. A number is a
-- safe integer, or another finite one by the text that JSON gives it.
pub mod Quote
pub mod Order
use mineverse.Prelude.{ℕ, Bool, true, false, Option, none, some, List, [], ◌∷◌, ◌++◌, if◌then◌else◌}
use mineverse.Prelude.Int.{ℤ}
use mineverse.Prelude.Texts.{text_leb}
use mineverse.Keys.{codes}
use Quote.{Text, quote, show_int}

mutual
  -- The values that `typeof` tells apart; `unsupported` is a function or a symbol.
  pub data Json : Type 0 where
    null_value undefined non_finite unsupported : Json
    boolean : Bool → Json
    integer big_int : ℤ → Json
    other_number : Text → Json
    string : Text → Json
    array : Items → Json
    object : Fields → Json

  pub data Items : Type 0 where
    no_items : Items
    item : Json → Items → Items

  -- In the order of insertion, each key once.
  pub data Fields : Type 0 where
    no_fields : Fields
    field : Text → Json → Fields → Fields

abbrev pub is_undefined : Json → Bool
is_undefined undefined = true
is_undefined _ = false

-- A key, with the text of its value.
abbrev pub Entry : Type 0
Entry = Text × Text

-- `.sort()`, one key more
unfoldable pub insert_entry : Entry → List Entry → List Entry
insert_entry e [] = e ∷ []
insert_entry e (f ∷ fs) = if text_leb e.0 f.0 then e ∷ f ∷ fs else f ∷ insert_entry e fs

-- `.join(",")`
unfoldable pub join_commas : List Text → Text
join_commas [] = []
join_commas (t ∷ []) = t
join_commas (t ∷ u ∷ ts) = t ++ 44 ∷ join_commas (u ∷ ts)

-- `JSON.stringify(k) + ":" + ...` for each key
unfoldable pub entry_texts : List Entry → List Text
unfolding quote
entry_texts [] = []
entry_texts (e ∷ es) = (quote e.0 ++ 58 ∷ e.1) ∷ entry_texts es

abbrev braced : Option (List Entry) → Option Text
braced none = none
braced (some es) = some (123 ∷ join_commas (entry_texts es) ++ 125 ∷ [])

abbrev bracketed : Option (List Text) → Option Text
bracketed none = none
bracketed (some ts) = some (91 ∷ join_commas ts ++ 93 ∷ [])

abbrev pub cons_text : Option Text → Option (List Text) → Option (List Text)
cons_text (some t) (some ts) = some (t ∷ ts)
cons_text _ _ = none

abbrev pub add_entry : Text → Option Text → Option (List Entry) → Option (List Entry)
add_entry key (some t) (some es) = some (insert_entry (key, t) es)
add_entry key _ _ = none

-- `canonicalize`; none where it throws.
unfoldable mutual
  pub canonicalize : Json → Option Text
  canonicalize null_value = some (codes "null")
  canonicalize undefined = none
  canonicalize non_finite = none
  canonicalize unsupported = none
  canonicalize (boolean true) = some (codes "true")
  canonicalize (boolean false) = some (codes "false")
  canonicalize (integer n) = some (show_int n)
  canonicalize (big_int n) = some (quote (show_int n))
  canonicalize (other_number t) = some t
  canonicalize (string t) = some (quote t)
  canonicalize (array xs) = bracketed (item_texts xs)
  canonicalize (object fs) = braced (entries fs)

  pub item_texts : Items → Option (List Text)
  item_texts no_items = some []
  item_texts (item v xs) = cons_text (canonicalize v) (item_texts xs)

  -- The fields whose value is not undefined, by their keys.
  pub entries : Fields → Option (List Entry)
  entries no_fields = some []
  entries (field k v fs) =
      let rest = entries fs in if is_undefined v then rest else add_entry k (canonicalize v) rest
