-- ===== src/Dict/Keys.antt =====
-- `Object.keys(d).sort()`: the order of the texts' code units. Keys are ASCII, so that is the order
-- of their characters.
use Prim.Native.String.{compare}
use text.Mathlib.Text.{is_le}
use mineverse.Prelude.{String, List, [], ◌∷◌, if◌then◌else◌}

unfoldable pub insert_key : String → List String → List String
insert_key k [] = k ∷ []
insert_key k (j ∷ l) = if is_le (compare k j) then k ∷ j ∷ l else j ∷ insert_key k l

unfoldable pub sort_keys : List String → List String
unfolding insert_key
sort_keys [] = []
sort_keys (k ∷ l) = insert_key k (sort_keys l)
