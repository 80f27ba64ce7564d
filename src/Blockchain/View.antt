-- ===== src/Blockchain/View.antt =====
-- The accessors of the class `Blockchain` (src/core/blockchain.js), and its `summary`.
use mineverse.Prelude.{
  ℕ, ◌-◌, String, Option, none, some, List, [], ◌∷◌, get_elem?, length, str_eq, if◌then◌else◌,
}
use mineverse.Config.{chain_id}
use mineverse.Dict
use mineverse.Records.{Receipt}
use mineverse.Transaction.{Transaction}
use mineverse.Block.{Block}
use mineverse.Env.{Env}
use mineverse.Blockchain.{Blockchain}

-- `height`
unfoldable pub height : Blockchain → ℕ
height chain = length chain.blocks - 1

-- `latest`
unfoldable pub latest : Blockchain → Option Block
latest chain = get_elem? chain.blocks (length chain.blocks - 1)

-- `getBlock`, by number and by hash
unfoldable pub block_at : Blockchain → ℕ → Option Block
block_at chain index = get_elem? chain.blocks index

unfoldable pub block_by_hash : Blockchain → String → Option Block
block_by_hash chain hash = Dict.get chain.by_hash hash

pub record Confirmed : Type 0 where
  pub tx : Option Transaction
  pub block_index : ℕ
  pub block_hash : String

-- `getTransaction`, where the position may be out of range; `throws` where the block is
-- missing.
pub data Lookup : Type 0 where
  not_found throws : Lookup
  found : Confirmed → Lookup

unfoldable pub get_transaction : Blockchain → String → Lookup
get_transaction chain hash = elim (Dict.get chain.tx_index hash) [
  | none ↦ not_found
  | some (index, pos) ↦ elim (get_elem? chain.blocks index) [
    | none ↦ throws
    | some block ↦ found (record {
      tx = get_elem? block.transactions pos;
      block_index = index;
      block_hash = block.hash;
    })
  ]
]

abbrev pub receipt_tx : Receipt → String
receipt_tx (Receipt.swap_buy tx symbol amount_in out) = tx
receipt_tx (Receipt.swap_sell tx symbol amount_in out) = tx
receipt_tx (Receipt.withdrawal tx items) = tx
receipt_tx (Receipt.listing_sale tx listing inventory_id price symbol fee) = tx
receipt_tx (Receipt.chunk_sale tx chunk seller price fee) = tx
receipt_tx (Receipt.share_purchase tx symbol amount_in out to_treasury) = tx
receipt_tx (Receipt.share_sale tx symbol amount_in out) = tx
receipt_tx (Receipt.payout tx symbol to amount memo) = tx
receipt_tx (Receipt.dividend tx symbol declared distributed holders) = tx

-- The map of receipts holds the last one of a transaction.
unfoldable pub last_receipt : String → List Receipt → Option Receipt
last_receipt hash [] = none
last_receipt hash (r ∷ receipts) = elim (last_receipt hash receipts) [
  | some later ↦ some later
  | none ↦ if str_eq (receipt_tx r) hash then some r else none
]

-- `getReceipt`
unfoldable pub get_receipt : Blockchain → String → Option Receipt
unfolding last_receipt
get_receipt chain hash = last_receipt hash chain.receipts

pub record Summary : Type 0 where
  pub chain_id : String
  pub height : ℕ
  pub latest_hash : Option String
  pub work : ℕ
  pub difficulty : Option ℕ
  pub state_root : String
  pub mempool : ℕ

-- `summary`; without a last block it throws, where the fields that need it are none.
unfoldable pub summary : Env → Blockchain → Summary
unfolding height latest
summary env chain = record {
  chain_id = chain_id;
  height = height chain;
  latest_hash = elim (latest chain) [ none ↦ none | some b ↦ some b.hash ];
  work = chain.work;
  difficulty = elim (latest chain) [ none ↦ none | some b ↦ some b.difficulty ];
  state_root = env.state_root chain.state;
  mempool = length (Dict.values chain.mempool.txs);
}
