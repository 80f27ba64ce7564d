-- ===== src/Transaction/Validate.antt =====
-- `validatePayload` and `validateTransaction` of src/core/transaction.js. The hash that a
-- transaction should have is an argument: Serial has it as the source
-- computes it.
use mineverse.Prelude.{
  ℕ, ◌+◌, String, Option, none, some, List, [], ◌∷◌, ltb, ◌==◌, not, length, str_eq, ok, err, ◌>>◌,
  fail_if,
}
use mineverse.Config.{
  chain_id, native, max_amount, min_fee, max_tx_future_drift_ms, min_liquidity, max_token_supply,
  min_vote_duration_ms, max_vote_duration_ms, min_contract_duration_ms, max_contract_duration_ms,
  min_company_liquidity, min_company_shares, max_company_shares, max_inventory_slots,
  max_stack_size,
}
use mineverse.Records.{Item}
use mineverse.Keys.{CryptoLib, is_valid_public_key, verify}
use mineverse.Bank.Contracts.{text_or_empty, is_some}
use mineverse.Transaction.{Payload, Transaction}
use mineverse.Transaction.Fields.{
  symbol_is_reserved, no_items, too_many_items, unknown_tx_type, wrong_chain_id, hash_mismatch,
  coinbase_with_sender, coinbase_signed, coinbase_with_fee, fee_below_minimum, timestamp_in_future,
  bad_public_key, invalid_signature, Check, require_int, require_string, optional_string,
  require_symbol, require_address, require_hash, require_uuid, require_server_id,
  optional_server_id, require_chunk_ref,
}

-- `requireInt(value, name)`, and with a lower bound of 1.
abbrev amount_from : ℕ → ℕ → Check
amount_from low value = require_int value low max_amount

-- `if (item.nbt !== undefined) requireString(item.nbt, "item.nbt", 4096)`
abbrev check_nbt : Option String → Check
check_nbt none = ok tt
check_nbt (some nbt) = require_string nbt 4096

abbrev meta_or_zero : Option ℕ → ℕ
meta_or_zero none = 0
meta_or_zero (some n) = n

unfoldable pub validate_each : List Item → Check
validate_each [] = ok tt
validate_each (item ∷ items) = do
  require_string item.id 64
  require_int item.count 1 max_stack_size
  require_int (meta_or_zero item.meta) 0 65535
  check_nbt item.nbt
  validate_each items

unfoldable pub validate_items : List Item → Check
unfolding validate_each
validate_items items = do
  fail_if (length items == 0) no_items
  fail_if (ltb max_inventory_slots (length items)) too_many_items
  validate_each items

-- A swap against a pool.
abbrev check_swap : String → ℕ → ℕ → Check
check_swap symbol amount_in min_out = do
  require_symbol symbol
  amount_from 1 amount_in
  amount_from 0 min_out

unfoldable pub validate_payload : Payload → Check
unfolding validate_items
validate_payload (Payload.coinbase to reward fees) = do
  require_address to
  amount_from 0 reward
  amount_from 0 fees
validate_payload (Payload.transfer to amount symbol) = do
  require_address to
  amount_from 1 amount
  require_symbol symbol
validate_payload (Payload.create_currency symbol name total_supply liquidity) = do
  require_string name 40
  require_symbol symbol
  fail_if (str_eq symbol native) symbol_is_reserved
  require_int total_supply 1 max_token_supply
  amount_from min_liquidity liquidity
validate_payload (Payload.buy symbol amount_in min_out) = check_swap symbol amount_in min_out
validate_payload (Payload.sell symbol amount_in min_out) = check_swap symbol amount_in min_out
validate_payload (Payload.create_vote statement duration_ms server_id) = do
  require_string statement 280
  require_int duration_ms min_vote_duration_ms max_vote_duration_ms
  optional_server_id server_id
validate_payload (Payload.cast_vote vote_id choice) = require_hash vote_id
validate_payload (Payload.create_contract contractee cost terms duration_ms) = do
  require_address contractee
  amount_from 1 cost
  require_int duration_ms min_contract_duration_ms max_contract_duration_ms
  require_string (text_or_empty terms) 1024
validate_payload (Payload.accept_contract contract_id) = require_hash contract_id
validate_payload (Payload.reject_contract contract_id) = require_hash contract_id
validate_payload (Payload.cancel_contract contract_id) = require_hash contract_id
validate_payload (Payload.resolve_contract contract_id) = require_hash contract_id
validate_payload (Payload.deposit_inventory uuid items server_id) = do
  require_uuid uuid
  validate_items items
  optional_server_id server_id
validate_payload (Payload.withdraw_inventory inventory_id uuid) = do
  require_hash inventory_id
  require_uuid uuid
validate_payload (Payload.register_uuid uuid) = require_uuid uuid
validate_payload (Payload.list_item inventory_id price symbol note) = do
  require_hash inventory_id
  amount_from 1 price
  require_symbol symbol
  optional_string note 140
validate_payload (Payload.cancel_listing listing_id) = require_hash listing_id
validate_payload (Payload.buy_listing listing_id) = require_hash listing_id
validate_payload (Payload.register_server server_id name description) = do
  require_server_id server_id
  require_string name 60
  optional_string description 500
validate_payload (Payload.claim_chunk server_id dimension x z name) = do
  require_chunk_ref server_id dimension x z
  optional_string name 60
validate_payload (Payload.set_chunk_sale server_id dimension x z price) = do
  require_chunk_ref server_id dimension x z
  amount_from 0 price
validate_payload (Payload.buy_chunk server_id dimension x z max_price) = do
  require_chunk_ref server_id dimension x z
  amount_from 1 max_price
validate_payload (Payload.transfer_chunk server_id dimension x z to) = do
  require_chunk_ref server_id dimension x z
  require_address to
validate_payload (Payload.create_company symbol name description total_shares liquidity server_id) =
    do
      require_string name 60
      require_symbol symbol
      fail_if (str_eq symbol native) symbol_is_reserved
      optional_string description 500
      require_int total_shares min_company_shares max_company_shares
      amount_from min_company_liquidity liquidity
      optional_server_id server_id
validate_payload (Payload.buy_shares symbol amount_in min_out) = check_swap symbol amount_in min_out
validate_payload (Payload.sell_shares symbol amount_in min_out) =
    check_swap symbol amount_in min_out
validate_payload (Payload.transfer_shares symbol to amount) = do
  require_symbol symbol
  require_address to
  amount_from 1 amount
validate_payload (Payload.company_payout symbol to amount memo) = do
  require_symbol symbol
  require_address to
  amount_from 1 amount
  optional_string memo 140
validate_payload (Payload.pay_dividend symbol amount) = do
  require_symbol symbol
  amount_from 1 amount
validate_payload (Payload.other name) = err unknown_tx_type

module _ (lib : CryptoLib) (tx_hash : Transaction → String) (now : ℕ) where
  -- The checks on a coinbase, and on a signed transaction.
  unfoldable pub validate_coinbase : Transaction → Check
  validate_coinbase tx = do
    fail_if (is_some tx.from) coinbase_with_sender
    fail_if (is_some tx.signature) coinbase_signed
    fail_if (not (tx.fee == 0)) coinbase_with_fee

  unfoldable pub validate_signed : Transaction → Check
  validate_signed tx = do
    fail_if (ltb tx.fee min_fee) fee_below_minimum
    fail_if (ltb (now + max_tx_future_drift_ms) tx.timestamp) timestamp_in_future
    let key = text_or_empty tx.from
    fail_if (not (is_valid_public_key lib key)) bad_public_key
    fail_if (not (verify lib key tx.hash tx.signature)) invalid_signature

  abbrev pub by_type : Payload → Transaction → Check
  by_type (Payload.coinbase to reward fees) tx = validate_coinbase tx
  by_type _ tx = validate_signed tx

  unfoldable pub validate_transaction : Transaction → Check
  unfolding validate_payload validate_coinbase validate_signed
  validate_transaction tx = do
    fail_if (not (str_eq tx.chain_id chain_id)) wrong_chain_id
    amount_from 0 tx.nonce
    amount_from 0 tx.fee
    amount_from 0 tx.timestamp
    validate_payload tx.payload
    fail_if (not (str_eq tx.hash (tx_hash tx))) hash_mismatch
    by_type tx.payload tx
