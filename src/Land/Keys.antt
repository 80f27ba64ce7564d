-- ===== src/Land/Keys.antt =====
-- `chunkKey` of src/core/land.js. A coordinate is printed in decimal, as a template literal does.
use Prim.Native.String.{◌++◌ as str_append}
use mineverse.Prelude.{ℕ, zero, suc, ◌+◌, ◌/◌, ◌%◌, String, List, [], ◌∷◌, ◌==◌, ltb, if◌then◌else◌}
use mineverse.Prelude.Int.{ℤ, pos, negsuc}

abbrev pub join : List String → String
join [] = ""
join (t ∷ ts) = str_append t (join ts)

unfoldable pub digit : ℕ → String
digit d =
    if d == 0
    then "0"
    else if d == 1
    then "1"
    else if d == 2
    then "2"
    else if d == 3
    then "3"
    else if d == 4
    then "4"
    else if d == 5
    then "5"
    else if d == 6
    then "6"
    else if d == 7
    then "7"
    else if d == 8
    then "8"
    else "9"

-- The decimal digits of a number. Fuel 16 is enough below 10^16, and coordinates are safe integers.
unfoldable pub show_ℕ : ℕ → ℕ → String
unfolding digit
show_ℕ zero n = ""
show_ℕ (suc fuel) n =
    let more = str_append (show_ℕ fuel (n / 10)) (digit (n % 10)) in
    if ltb n 10 then digit n else more

unfoldable pub show_ℤ : ℤ → String
unfolding show_ℕ
show_ℤ (pos n) = show_ℕ 16 n
show_ℤ (negsuc n) = str_append "-" (show_ℕ 16 (n + 1))

unfoldable pub chunk_key : String → String → ℤ → ℤ → String
unfolding show_ℤ
chunk_key server_id dimension x z =
    join (server_id ∷ "/" ∷ dimension ∷ "/" ∷ show_ℤ x ∷ "," ∷ show_ℤ z ∷ [])
