-- ===== src/Block/Validate.antt =====
-- `validateBlockStructure` of src/core/block.js.
use mineverse.Prelude.{
  ℕ, ◌+◌, String, true, false, Bool, Option, none, some, List, [], ◌∷◌, map, ltb, ◌==◌, not, length,
  str_eq, if◌then◌else◌, Result, ok, err, ◌>>◌, fail_if,
}
use mineverse.Config.{
  chain_id, max_amount, min_difficulty, max_difficulty, max_txs_per_block, max_future_drift_ms,
  max_block_bytes,
}
use mineverse.Keys.{is_hash}
use mineverse.Hash.{merkle_root, meets_difficulty}
use mineverse.Transaction.{Transaction}
use mineverse.Transaction.Fields.{TxError, Check}
use mineverse.Transaction.Validate.{validate_transaction}
use mineverse.State.{is_coinbase}
use mineverse.Land.{contains}
use mineverse.Block.{Block}
use mineverse.Env.{Env}

pub data BlockError : Type 0 where
  wrong_chain bad_index bad_prev_hash bad_timestamp difficulty_out_of_range bad_nonce : BlockError
  no_coinbase too_many_transactions too_far_in_the_future block_too_large : BlockError
  first_is_not_coinbase multiple_coinbases duplicate_transaction merkle_mismatch : BlockError
  block_hash_mismatch not_enough_work : BlockError
  bad_transaction : TxError → BlockError

abbrev pub BlockCheck : Type 0
BlockCheck = Result BlockError (Unit {0})

-- An error of a transaction ends the check of its block.
abbrev pub as_block : Check → BlockCheck
as_block (ok u) = ok tt
as_block (err e) = err (bad_transaction e)

unfoldable pub any_coinbase : List Transaction → Bool
any_coinbase [] = false
any_coinbase (tx ∷ txs) = if is_coinbase tx.payload then true else any_coinbase txs

-- Exactly one coinbase, and it is the first transaction.
unfoldable pub check_coinbases : List Transaction → BlockCheck
unfolding any_coinbase
check_coinbases [] = err no_coinbase
check_coinbases (tx ∷ txs) = do
  fail_if (not (is_coinbase tx.payload)) first_is_not_coinbase
  fail_if (any_coinbase txs) multiple_coinbases

module _ (env : Env) (now : ℕ) where
  -- The loop with its set of hashes seen.
  unfoldable pub check_transactions : List String → List Transaction → BlockCheck
  check_transactions seen [] = ok tt
  check_transactions seen (tx ∷ txs) = do
    as_block (validate_transaction env.lib env.tx_hash now tx)
    fail_if (contains tx.hash seen) duplicate_transaction
    check_transactions (tx.hash ∷ seen) txs

  abbrev is_root : Block → Option String → Bool
  is_root block none = false
  is_root block (some root) = str_eq block.merkle_root root

  unfoldable pub validate_block_structure : Block → BlockCheck
  unfolding check_coinbases check_transactions
  validate_block_structure block = do
    fail_if (not (str_eq block.chain_id chain_id)) wrong_chain
    fail_if (ltb max_amount block.index) bad_index
    fail_if (not (is_hash block.prev_hash)) bad_prev_hash
    fail_if (ltb max_amount block.timestamp) bad_timestamp
    fail_if
        (if ltb block.difficulty min_difficulty then true else ltb max_difficulty block.difficulty)
        difficulty_out_of_range
    fail_if (ltb max_amount block.nonce) bad_nonce
    fail_if (length block.transactions == 0) no_coinbase
    fail_if (ltb max_txs_per_block (length block.transactions)) too_many_transactions
    fail_if (ltb (now + max_future_drift_ms) block.timestamp) too_far_in_the_future
    fail_if (ltb max_block_bytes (env.block_size block)) block_too_large
    check_coinbases block.transactions
    check_transactions [] block.transactions
    let hashes = map (λ (tx : Transaction). tx.hash) block.transactions
    fail_if (not (is_root block (merkle_root env.lib.sha256 hashes))) merkle_mismatch
    fail_if (not (str_eq block.hash (env.header_hash block))) block_hash_mismatch
    fail_if (not (meets_difficulty block.hash block.difficulty)) not_enough_work
