-- ===== src/Canonical/Quote.antt =====
-- `JSON.stringify` of texts and integers, as src/util/canonical.js uses it.
use mineverse.Prelude.{
  ℕ, zero, suc, ◌+◌, ◌/◌, ◌%◌, Bool, false, not, ◌&&◌, List, [], ◌∷◌, ◌++◌, ltb, leb, ◌==◌,
  if◌then◌else◌,
}
use mineverse.Prelude.Int.{ℤ, pos, negsuc}

abbrev pub Text : Type 0
Text = List ℕ

-- The last `fuel` decimal digits of a number, or all of them if there are fewer.
unfoldable pub digits : ℕ → ℕ → Text
digits zero n = []
digits (suc fuel) n =
    let more = digits fuel (n / 10) ++ (48 + n % 10) ∷ [] in
    if ltb n 10 then (48 + n) ∷ [] else more

-- A number has fewer digits than one more than itself, so all of them are written.
unfoldable pub show_int : ℤ → Text
unfolding digits
show_int (pos n) = digits (suc n) n
show_int (negsuc n) = 45 ∷ digits (suc (n + 1)) (n + 1)

-- A digit of base 16, in lower case
abbrev hex_digit : ℕ → ℕ
hex_digit n = if ltb n 10 then 48 + n else 87 + n

-- `\uXXXX`
unfoldable pub unicode_escape : ℕ → Text
unicode_escape c =
    92
    ∷ 117
    ∷ hex_digit (c / 4096)
    ∷ hex_digit (c / 256 % 16)
    ∷ hex_digit (c / 16 % 16)
    ∷ hex_digit (c % 16)
    ∷ []

-- A code unit that is no surrogate: quotes, backslashes and control characters are escaped.
unfoldable pub escape_unit : ℕ → Text
unfolding unicode_escape
escape_unit c =
    if c == 34
    then 92 ∷ 34 ∷ []
    else if c == 92
    then 92 ∷ 92 ∷ []
    else if c == 8
    then 92 ∷ 98 ∷ []
    else if c == 9
    then 92 ∷ 116 ∷ []
    else if c == 10
    then 92 ∷ 110 ∷ []
    else if c == 12
    then 92 ∷ 102 ∷ []
    else if c == 13
    then 92 ∷ 114 ∷ []
    else if ltb c 32
    then unicode_escape c
    else c ∷ []

abbrev is_high : ℕ → Bool
is_high c = leb 55296 c && leb c 56319

abbrev starts_low : Text → Bool
starts_low [] = false
starts_low (c ∷ cs) = leb 56320 c && leb c 57343

abbrev is_surrogate : ℕ → Bool
is_surrogate c = leb 55296 c && leb c 57343

-- The rest of a text up to the closing quote; `paired` after the first half of a surrogate pair. A
-- surrogate without its other half is escaped.
unfoldable pub quote_from : Bool → Text → Text
unfolding escape_unit unicode_escape
quote_from paired [] = 34 ∷ []
quote_from paired (c ∷ cs) =
    let pairs = not paired && is_high c && starts_low cs in
    let rest = quote_from pairs cs in
    if paired
    then c ∷ rest
    else if pairs
    then c ∷ rest
    else if is_surrogate c
    then unicode_escape c ++ rest
    else escape_unit c ++ rest

unfoldable pub quote : Text → Text
unfolding quote_from
quote t = 34 ∷ quote_from false t
