-- ===== src/Transaction.antt =====
-- Transactions (src/core/transaction.js) as the state machine reads them.
pub mod Create
pub mod Fields
pub mod Validate
use mineverse.Prelude.{ℕ, String, Option, List}
use mineverse.Prelude.Int.{ℤ}
use mineverse.Records.{Choice, Item}

-- `tx.type` with the fields of `tx.payload`: a constructor for each type. A field that may be
-- left out, or that the code tests with `typeof`, is an option.
pub data Payload : Type 0 where
  coinbase : (to : String) (reward fees : ℕ) → Payload
  transfer : (to : String) (amount : ℕ) (symbol : String) → Payload
  create_currency : (symbol name : String) (total_supply liquidity : ℕ) → Payload
  buy sell : (symbol : String) (amount_in min_out : ℕ) → Payload
  create_vote : (statement : String) (duration_ms : ℕ) (server_id : Option String) → Payload
  cast_vote : (vote_id : String) (choice : Choice) → Payload
  create_contract :
      (contractee : String) (cost : ℕ) (terms : Option String) (duration_ms : ℕ) → Payload
  accept_contract reject_contract cancel_contract resolve_contract :
      (contract_id : String) → Payload
  deposit_inventory : (uuid : String) (items : List Item) (server_id : Option String) → Payload
  withdraw_inventory : (inventory_id uuid : String) → Payload
  register_uuid : (uuid : String) → Payload
  list_item : (inventory_id : String) (price : ℕ) (symbol : String) (note : Option String) → Payload
  cancel_listing buy_listing : (listing_id : String) → Payload
  register_server : (server_id name : String) (description : Option String) → Payload
  claim_chunk : (server_id dimension : String) (x z : ℤ) (name : Option String) → Payload
  set_chunk_sale : (server_id dimension : String) (x z : ℤ) (price : ℕ) → Payload
  buy_chunk : (server_id dimension : String) (x z : ℤ) (max_price : ℕ) → Payload
  transfer_chunk : (server_id dimension : String) (x z : ℤ) (to : String) → Payload
  create_company :
      (symbol name : String) (description : Option String) (total_shares liquidity : ℕ)
      (server_id : Option String)
      → Payload
  buy_shares sell_shares : (symbol : String) (amount_in min_out : ℕ) → Payload
  transfer_shares : (symbol to : String) (amount : ℕ) → Payload
  company_payout : (symbol to : String) (amount : ℕ) (memo : Option String) → Payload
  pay_dividend : (symbol : String) (amount : ℕ) → Payload
  -- any other `tx.type`
  other : (name : String) → Payload

pub record Transaction : Type 0 where
  pub chain_id : String
  -- the sender's public key; `null` in a coinbase
  pub from : Option String
  pub nonce : ℕ
  pub fee : ℕ
  pub timestamp : ℕ
  pub payload : Payload
  pub hash : String
  pub signature : Option String
