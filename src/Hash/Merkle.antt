-- ===== src/Hash/Merkle.antt =====
-- The Merkle root is always reached, and the difficulty against the value of the digits.
use mathlib.Core.Path.{subst}
use mineverse.Prelude.{ℕ, zero, suc, ◌≤◌, String, some, List, [], ◌∷◌, ◌≡◌, refl, arith, length}
use mineverse.Hash.{zero_hash, next_level, reduce_levels, merkle_root}

module _ (sha256 : String → String) where
  length-next_level :
      (a b : String) (rest : List String)
      → length (next_level sha256 (a ∷ b ∷ rest)) ≤ suc (length rest)
  unfolding next_level
  length-next_level a b [] = omega arith
  length-next_level a b (c ∷ []) = omega arith
  length-next_level a b (c ∷ d ∷ rest) = omega (arith, length-next_level c d rest)

  next_level-cons :
      (a b : String) (rest : List String)
      → (h : String) × (hs : List String) × (next_level sha256 (a ∷ b ∷ rest) ≡ h ∷ hs)
  unfolding next_level
  next_level-cons a b rest = (_, _, refl)

  reduce_levels-total :
      (fuel : ℕ) (h : String) (hs : List String)
      → length (h ∷ hs) ≤ fuel
      → (root : String) × (reduce_levels sha256 fuel (h ∷ hs) ≡ some root)
  unfolding reduce_levels
  reduce_levels-total zero h hs k = absurd (omega arith)
  reduce_levels-total (suc fuel) h [] k = (h, refl)
  reduce_levels-total (suc fuel) a (b ∷ rest) k =
      let (h, hs, e) = next_level-cons a b rest in
      let short : length (h ∷ hs) ≤ suc (length rest) =
        subst (λ l. length l ≤ suc (length rest)) e (length-next_level a b rest) in
      let (root, r) = reduce_levels-total fuel h hs (omega arith) in (root, rw e r)

  -- Whatever the hash function, a Merkle root is reached within the fuel, for any list of hashes.
  pub merkle_root-total : (hs : List String) → (root : String) × (merkle_root sha256 hs ≡ some root)
  unfolding merkle_root
  merkle_root-total [] = (zero_hash, refl)
  merkle_root-total (h ∷ hs) = reduce_levels-total (length (h ∷ hs)) h hs (omega arith)
