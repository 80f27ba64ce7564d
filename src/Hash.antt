-- ===== src/Hash.antt =====
-- src/util/hash.js: the Merkle root and the proof of work. SHA-256 is the argument `sha256`.
pub mod Merkle
use Prim.Native.String.{◌++◌ as str_append}
use mineverse.Prelude.{
  ℕ, zero, suc, ◌+◌, ◌-◌, String, Bool, Option, none, some, List, [], ◌∷◌, leb, ◌&&◌, ◌==◌, length,
  if◌then◌else◌,
}
use mineverse.Keys.{codes}

-- `"0".repeat(64)`
abbrev pub zero_hash : String
zero_hash = "0000000000000000000000000000000000000000000000000000000000000000"

module _ (sha256 : String → String) where
  -- One level of the tree from the level below it.
  unfoldable pub next_level : List String → List String
  next_level [] = []
  next_level (left ∷ []) = sha256 (str_append left left) ∷ []
  next_level (left ∷ right ∷ rest) = sha256 (str_append left right) ∷ next_level rest

  -- The `while` loop; none means that the fuel ran out.
  unfoldable pub reduce_levels : ℕ → List String → Option String
  reduce_levels zero level = none
  reduce_levels (suc fuel) [] = none
  reduce_levels (suc fuel) (root ∷ []) = some root
  reduce_levels (suc fuel) (a ∷ b ∷ rest) = reduce_levels fuel (next_level (a ∷ b ∷ rest))

  -- `merkleRoot`; a level shrinks, so its length is fuel enough.
  unfoldable pub merkle_root : List String → Option String
  unfolding reduce_levels next_level
  merkle_root [] = some zero_hash
  merkle_root (h ∷ hs) = reduce_levels (length (h ∷ hs)) (h ∷ hs)

-- `parseInt(c, 16)`
unfoldable pub nibble : ℕ → Option ℕ
nibble c =
    if leb 48 c && leb c 57
    then some (c - 48)
    else if leb 97 c && leb c 102
    then some (c - 87)
    else if leb 65 c && leb c 70
    then some (c - 55)
    else none

-- The bits that end the count, at a digit that is not 0.
unfoldable pub bits_of : ℕ → ℕ
bits_of n = if leb 8 n then 0 else if leb 4 n then 1 else if leb 2 n then 2 else 3

unfoldable pub count_bits : ℕ → List ℕ → ℕ
unfolding nibble bits_of
count_bits bits [] = bits
count_bits bits (c ∷ cs) = elim (nibble c) [
  | none ↦ bits
  | some n ↦ let rest = count_bits (bits + 4) cs in if n == 0 then rest else bits + bits_of n
]

unfoldable pub leading_zero_bits : String → ℕ
unfolding count_bits
leading_zero_bits hex_hash = count_bits 0 (codes hex_hash)

unfoldable pub meets_difficulty : String → ℕ → Bool
unfolding leading_zero_bits
meets_difficulty hex_hash difficulty = leb difficulty (leading_zero_bits hex_hash)
