-- ===== src/Block.antt =====
-- Blocks (src/core/block.js) and their work.
pub mod Validate
use mineverse.Prelude.{ℕ, ◌+◌, ◌^◌, String, List, [], ◌∷◌}
use mineverse.Transaction.{Transaction}

pub record Block : Type 0 where
  pub chain_id : String
  pub index : ℕ
  pub prev_hash : String
  pub timestamp : ℕ
  pub difficulty : ℕ
  pub merkle_root : String
  pub nonce : ℕ
  pub transactions : List Transaction
  pub hash : String

-- `1n << BigInt(block.difficulty)`
unfoldable pub block_work : Block → ℕ
block_work block = 2 ^ block.difficulty

unfoldable pub work_from : ℕ → List Block → ℕ
unfolding block_work
work_from sum [] = sum
work_from sum (b ∷ blocks) = work_from (sum + block_work b) blocks

unfoldable pub total_work : List Block → ℕ
unfolding work_from
total_work blocks = work_from 0 blocks
