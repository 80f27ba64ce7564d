-- ===== src/Api.antt =====
-- src/api/server.js: the HTTP server of a node. A request is its route with the parameters that
-- the handler reads, and a response is its status with the value that is sent as JSON. Express, and
-- the JSON texts, are outside the model.
pub mod Views
pub mod Lists
pub mod Quotes
pub mod Reads
pub mod Writes
pub mod Gate
pub mod Priced
pub mod Quoted
use mineverse.Prelude.{ℕ, String, Bool, Option, List}
use mineverse.Prelude.Int.{ℤ}
use mineverse.Dict.{Dict}
use mineverse.Records.{
  Currency, Vote, Contract, Item, Inventory, Listing, Server, Company, Chunk, Bank, Receipt,
  StateError,
}
use mineverse.Transaction.{Payload, Transaction}
use mineverse.Transaction.Fields.{TxError}
use mineverse.Block.{Block}
use mineverse.Mempool.{Refusal}
use mineverse.Blockchain.View.{Confirmed, Summary}
use mineverse.Blockchain.Storage.{Snapshot}
use mineverse.Wallet.{Wallet, KeyError, KeyLib}
use mineverse.Wallet.Words.{Word}
use mineverse.Network.{Node, NetEnv}

-- `side` of a quote: "sell", or anything else.
pub data Side : Type 0 where
  buying selling : Side

-- A number is what `parseInt` gives: none for NaN. A text that may be left out is an option.
pub record ChunkQuery : Type 0 where
  pub dimension : Option String
  pub owner : Option String
  pub for_sale : Bool
  pub min_x : Option ℤ
  pub max_x : Option ℤ
  pub min_z : Option ℤ
  pub max_z : Option ℤ

pub record ListingQuery : Type 0 where
  pub seller : Option String
  pub buyer : Option String
  pub symbol : Option String
  pub server_id : Option String
  -- "open" where it is left out
  pub status : String

-- The requests that are read only.
pub data Query : Type 0 where
  status mempool currencies servers bank peers : Query
  chain : (from to : Option ℤ) → Query
  block tx account nonce uuid currency vote contract inventory listing : String → Query
  reserved server land company : String → Query
  quote company_quote : (symbol : String) → Side → Option ℤ → Query
  votes : (server_id : Option String) (running : Bool) → Query
  contracts : (address status : Option String) → Query
  inventories : (address uuid : Option String) (claimed : Option Bool) → Query
  listings : ListingQuery → Query
  chunks : String → ChunkQuery → Query
  leaderboard : String → Option ℤ → Query
  chunk : (server_id dimension : String) (x z : Option ℤ) → Query
  companies : (server_id : Option String) → Query

-- The requests that may change the node.
pub data Command : Type 0 where
  build : (public_key : String) → Payload → (fee : Option ℤ) → Command
  submit : Transaction → Command
  -- none for an address that is no text
  add_peer : Option String → Command
  -- whether writing the file throws
  snapshot : (throws : Bool) → Command
  -- what the random generator draws
  new_wallet : List ℕ → Command

-- `other` is a route that is not there, by whether its method is GET.
pub data Request : Type 0 where
  get : Query → Request
  post : Command → Request
  other : (is_get : Bool) → Request

pub data ApiError : Type 0 where
  invalid_token not_found throws invalid_address not_registered invalid_coordinates : ApiError
  bad_amount invalid_key p2p_disabled not_saved key_generation_disabled : ApiError
  no_trade : StateError → ApiError
  bad_payload : TxError → ApiError
  refused : Refusal → ApiError
  no_wallet : KeyError → ApiError

-- `spotPrice`: 0, or the double next to a quotient.
pub data Price : Type 0 where
  no_price : Price
  quotient : (reserve_native reserve_out : ℕ) → Price

pub record AccountView : Type 0 where
  pub address : String
  pub balance : ℕ
  pub nonce : ℕ
  pub tokens : Dict ℕ
  pub shares : List (String × ℕ)
  pub uuid : Option String
  pub exists : Bool

pub record CurrencyView : Type 0 where
  pub currency : Currency
  pub price : Price

-- The table of holders is left out: it is empty here.
pub record CompanyView : Type 0 where
  pub company : Company
  pub price : Price
  pub outstanding_shares : ℕ

-- The table of owners is left out: it is empty here.
pub record ServerView : Type 0 where
  pub server : Server
  pub owner_count : ℕ

pub record ListingView : Type 0 where
  pub listing : Listing
  pub items : List Item
  pub claimed : Bool

pub record PeerView : Type 0 where
  pub node_id : Option String
  pub address : Option String
  pub inbound : Bool

pub record Quote : Type 0 where
  pub symbol : String
  pub side : Side
  pub amount_in : ℕ
  pub amount_out : ℕ
  pub to_treasury : ℕ

pub data Body : Type 0 where
  error : ApiError → Body
  status_of : Summary → (peers : ℕ) (node_id : Option String) → Body
  chain_of : (height : ℕ) → List Block → Body
  block_of : Block → Body
  confirmed : Confirmed → Option Receipt → Body
  pending : Transaction → Body
  mempool_of : (size : ℕ) → List Transaction → Body
  account_of : AccountView → Body
  nonce_of : String → ℕ → Body
  currency_of : CurrencyView → Body
  currencies_of : List CurrencyView → Body
  quote_of : Quote → Body
  vote_of : Vote → Body
  votes_of : List Vote → Body
  contract_of : Contract → Body
  contracts_of : List Contract → Body
  inventory_of : Inventory → Body
  inventories_of : List Inventory → Body
  listing_of : ListingView → Body
  listings_of : List ListingView → Body
  servers_of : List ServerView → Body
  server_of : ServerView → List Vote → List CompanyView → Body
  chunk_of : Chunk → Body
  unclaimed : (key server_id dimension : String) (x z : ℤ) (claim_price : ℕ) → Body
  chunks_of : ℕ → List Chunk → Body
  ranking : List (String × ℕ) → Body
  company_of : CompanyView → List (String × ℕ) → Body
  companies_of : List CompanyView → Body
  bank_of : Bank → (active_contracts : ℕ) → Body
  peers_of : List PeerView → (known : List String) → Body
  built : Transaction → (hash address : String) → Body
  accepted : (hash : String) → Body
  peer_added : String → Body
  saved : Bool → (height : ℕ) → Body
  wallet_of : Wallet → List Word → Body

pub record Response : Type 0 where
  pub code : ℕ
  pub body : Body

abbrev pub answer : Body → Response
answer body = record { code = 200; body = body }

abbrev pub bad : ℕ → ApiError → Response
bad code e = record { code = code; body = error e }

-- What the server is made with. `node` holds the chain; without `has_p2p` the rest of it is idle.
pub record Host : Type 0 where
  pub node : Node
  pub has_p2p : Bool
  pub api_token : Option String
  pub allow_key_generation : Bool
  pub target : Option String
  -- what was last written to the target
  pub file : Option Snapshot

-- What the server takes from outside the model.
pub record ApiEnv : Type 1 where
  pub net : NetEnv
  pub kl : KeyLib
  pub wordlist : List Word
  -- `localeCompare` gives at most 0
  pub locale_leb : String → String → Bool
