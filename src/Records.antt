-- ===== src/Records.antt =====
-- The records of chain state, as the handlers under src/core build them, and `emptyState` of
-- src/core/state.js. An address, a hash, a symbol or an id is the text that the source uses as an
-- object key. A field that starts as `null` is an option.
mod Errors
pub use Errors.*
use mineverse.Prelude.{ℕ, String, Bool, Option, none, List}
use mineverse.Prelude.Int.{ℤ}
use mineverse.Dict
use mineverse.Dict.{Dict}

pub record Account : Type 0 where
  pub balance : ℕ
  pub nonce : ℕ
  pub tokens : Dict ℕ
  pub uuid : Option String

pub record Currency : Type 0 where
  pub symbol : String
  pub name : String
  pub owner : String
  pub total_supply : ℕ
  pub reserve_native : ℕ
  pub reserve_token : ℕ
  pub created_at : ℕ
  pub created_at_height : ℕ

pub data Choice : Type 0 where
  yes_vote no_vote : Choice

pub data VoteResult : Type 0 where
  passed rejected tied : VoteResult

pub record Vote : Type 0 where
  pub id : String
  pub statement : String
  pub creator : String
  pub server_id : Option String
  pub yes_count : ℕ
  pub no_count : ℕ
  pub voters : Dict Choice
  pub created_at : ℕ
  pub end_time : ℕ
  pub running : Bool
  pub result : Option VoteResult

pub data ContractStatus : Type 0 where
  proposed active settled expired rejected cancelled : ContractStatus

pub data Settlement : Type 0 where
  resolved expired rejected cancelled : Settlement

pub record Contract : Type 0 where
  pub id : String
  pub contracter : String
  pub contractee : String
  pub cost : ℕ
  pub terms : String
  pub status : ContractStatus
  pub running : Bool
  pub created_at : ℕ
  pub duration_ms : ℕ
  pub accept_deadline : ℕ
  pub accepted_at : Option ℕ
  pub end_time : Option ℕ
  pub settled_at : Option ℕ
  pub settlement : Option Settlement
  pub interest : ℕ

pub record Item : Type 0 where
  pub id : String
  pub count : ℕ
  pub meta : Option ℕ
  pub nbt : Option String

pub record Inventory : Type 0 where
  pub id : String
  pub owner : String
  pub uuid : String
  pub server_id : Option String
  pub items : List Item
  pub deposited_at : ℕ
  pub listing_id : Option String
  pub acquired_via : Option String
  pub claimed : Bool
  pub claimed_at : Option ℕ
  pub claimed_by_uuid : Option String

pub data ListingStatus : Type 0 where
  on_sale sold cancelled : ListingStatus

pub record Listing : Type 0 where
  pub id : String
  pub seller : String
  pub inventory_id : String
  pub price : ℕ
  pub symbol : String
  pub note : String
  pub server_id : Option String
  pub status : ListingStatus
  pub created_at : ℕ
  pub buyer : Option String
  pub sold_at : Option ℕ
  pub fee : ℕ

pub record Server : Type 0 where
  pub id : String
  pub name : String
  pub description : String
  pub owner : String
  pub registered_at : ℕ
  pub chunk_count : ℕ
  pub owners : Dict ℕ

pub record Company : Type 0 where
  pub symbol : String
  pub name : String
  pub description : String
  pub ceo : String
  pub server_id : Option String
  pub total_shares : ℕ
  pub reserve_native : ℕ
  pub reserve_shares : ℕ
  pub treasury : ℕ
  pub treasury_raised : ℕ
  pub dividends_paid : ℕ
  pub holders : Dict ℕ
  pub holder_count : ℕ
  pub created_at : ℕ
  pub created_at_height : ℕ

pub record Chunk : Type 0 where
  pub key : String
  pub server_id : String
  pub dimension : String
  pub x : ℤ
  pub z : ℤ
  pub owner : String
  pub name : String
  pub claimed_at : ℕ
  pub acquired_at : ℕ
  pub for_sale : Bool
  pub price : ℕ

pub record Bank : Type 0 where
  pub pending : ℕ
  pub vault : ℕ
  pub treasury : ℕ
  pub tokens : Dict ℕ
  pub interest_paid : ℕ

-- `height` is -1 in the source before genesis; here it is the number of blocks, one more.
pub record State : Type 0 where
  pub blocks_applied : ℕ
  pub last_hash : Option String
  pub last_timestamp : ℕ
  pub accounts : Dict Account
  pub currencies : Dict Currency
  pub votes : Dict Vote
  pub contracts : Dict Contract
  pub inventories : Dict Inventory
  pub uuids : Dict String
  pub listings : Dict Listing
  pub servers : Dict Server
  pub chunks : Dict Chunk
  pub companies : Dict Company
  pub bank : Bank

unfoldable pub empty_bank : Bank
empty_bank = record { pending = 0; vault = 0; treasury = 0; tokens = Dict.empty; interest_paid = 0 }

unfoldable pub empty_state : State
unfolding empty_bank
empty_state = record {
  blocks_applied = 0;
  last_hash = none;
  last_timestamp = 0;
  accounts = Dict.empty;
  currencies = Dict.empty;
  votes = Dict.empty;
  contracts = Dict.empty;
  inventories = Dict.empty;
  uuids = Dict.empty;
  listings = Dict.empty;
  servers = Dict.empty;
  chunks = Dict.empty;
  companies = Dict.empty;
  bank = empty_bank;
}

-- The block that a handler runs in: `ctx` without its list of receipts, which a handler returns.
pub record Context : Type 0 where
  pub timestamp : ℕ
  pub height : ℕ

-- `ctx.receipts.push({ tx, type, ... })`, a constructor for each `type`.
pub data Receipt : Type 0 where
  swap_buy swap_sell : (tx symbol : String) (amount_in out : ℕ) → Receipt
  withdrawal : (tx : String) → List Item → Receipt
  listing_sale :
      (tx listing inventory_id : String) (price : ℕ) (symbol : String) (fee : ℕ) → Receipt
  chunk_sale : (tx chunk seller : String) (price fee : ℕ) → Receipt
  share_purchase : (tx symbol : String) (amount_in out to_treasury : ℕ) → Receipt
  share_sale : (tx symbol : String) (amount_in out : ℕ) → Receipt
  payout : (tx symbol to : String) (amount : ℕ) (memo : String) → Receipt
  dividend : (tx symbol : String) (declared distributed holders : ℕ) → Receipt
