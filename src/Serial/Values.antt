-- ===== src/Serial/Values.antt =====
-- Texts, numbers and items as values that src/util/canonical.js serialises. An optional field that is
-- none is one that is left out.
use mineverse.Prelude.{
  ℕ, ◌+◌, ◌-◌, ◌/◌, ◌%◌, String, Option, none, some, List, [], ◌∷◌, ltb, if◌then◌else◌,
}
use mineverse.Prelude.Int.{pos}
use mineverse.Keys.{codes}
use mineverse.Records.{Choice, Item}
use mineverse.Canonical.Quote.{Text}
use mineverse.Canonical.{
  Json, undefined, integer, string, object, Items, no_items, item, Fields, no_fields, field,
}

-- The UTF-16 code units of code points
unfoldable pub utf16 : List ℕ → Text
utf16 [] = []
utf16 (c ∷ cs) =
    let rest = utf16 cs in
    if ltb c 65536
    then c ∷ rest
    else (55296 + (c - 65536) / 1024) ∷ (56320 + (c - 65536) % 1024) ∷ rest

unfoldable pub text : String → Json
unfolding utf16
text s = string (utf16 (codes s))

abbrev pub number : ℕ → Json
number n = integer (pos n)

unfoldable pub optional : Option String → Json
unfolding text
optional none = undefined
optional (some s) = text s

unfoldable pub fields_json : List (String × Json) → Fields
unfolding utf16
fields_json [] = no_fields
fields_json ((k, v) ∷ rest) = field (utf16 (codes k)) v (fields_json rest)

abbrev pub entries_json : List (String × Json) → Json
entries_json list = object (fields_json list)

abbrev pub choice_json : Choice → Json
choice_json Choice.yes_vote = text "yes"
choice_json Choice.no_vote = text "no"

abbrev pub optional_number : Option ℕ → Json
optional_number none = undefined
optional_number (some n) = number n

unfoldable pub items_json : List Item → Items
unfolding optional fields_json
items_json [] = no_items
items_json (i ∷ rest) =
    item
      (entries_json (
        ("id", text i.id)
        ∷ ("count", number i.count)
        ∷ ("meta", optional_number i.meta)
        ∷ ("nbt", optional i.nbt)
        ∷ []))
      (items_json rest)
