-- ===== src/Genesis/Load.antt =====
-- `loadGenesisConfig` and `createGenesisBlock` of src/core/genesis.js. The file's JSON is what is
-- parsed: a field is none where it has not the type that the code asks for.
use mineverse.Prelude.{
  ℕ, suc, String, Bool, false, not, Option, none, some, List, [], ◌∷◌, str_eq, Result, ok, ◌>>=◌,
  ◌>>◌, fail_if, require,
}
use mineverse.Prelude.Int.{ℤ, pos, negsuc}
use mineverse.Config.{chain_id}
use mineverse.Keys.{is_valid_address}
use mineverse.Hash.{zero_hash}
use mineverse.Block.{Block}
use mineverse.Canonical.{Json, integer}
use mineverse.Canonical.Quote.{Text}
use mineverse.Serial.Values.{text, entries_json, fields_json}
use mineverse.Serial.{hash_object, compute_hash}

-- An integer that is none is a value that is no safe integer.
pub record RawGenesis : Type 0 where
  pub chain_id : Option String
  pub timestamp : Option ℤ
  pub difficulty : Option ℤ
  pub message : Option String
  pub allocations : Option (List (String × Option ℤ))

pub data GenesisError : Type 0 where
  wrong_chain_id bad_timestamp bad_difficulty bad_allocations bad_address bad_amount : GenesisError

-- The difficulty may be below 0.
pub record GenesisConfig : Type 0 where
  pub chain_id : String
  pub timestamp : ℕ
  pub difficulty : ℤ
  pub message : String
  pub allocations : List (String × ℕ)

abbrev is_this_chain : Option String → Bool
is_this_chain none = false
is_this_chain (some id) = str_eq id chain_id

abbrev above_zero : Option ℤ → Option ℕ
above_zero (some (pos (suc n))) = some (suc n)
above_zero _ = none

abbrev from_zero : Option ℤ → Option ℕ
from_zero (some (pos n)) = some n
from_zero _ = none

-- The loop over the allocations.
unfoldable pub check_allocations :
    List (String × Option ℤ) → Result GenesisError (List (String × ℕ))
check_allocations [] = ok []
check_allocations ((address, given) ∷ more) = do
  fail_if (not (is_valid_address address)) bad_address
  amount ← require (from_zero given) bad_amount
  rest ← check_allocations more
  ok ((address, amount) ∷ rest)

-- `typeof raw.message === "string" ? raw.message : ""`
abbrev message_of : Option String → String
message_of none = ""
message_of (some m) = m

-- `loadGenesisConfig`
unfoldable pub load_genesis_config : RawGenesis → Result GenesisError GenesisConfig
load_genesis_config raw = do
  fail_if (not (is_this_chain raw.chain_id)) wrong_chain_id
  timestamp ← require (above_zero raw.timestamp) bad_timestamp
  difficulty ← require raw.difficulty bad_difficulty
  given ← require raw.allocations bad_allocations
  allocations ← check_allocations given
  ok (record {
    chain_id = chain_id;
    timestamp = timestamp;
    difficulty = difficulty;
    message = message_of raw.message;
    allocations = allocations;
  })

unfoldable pub amounts_json : List (String × ℕ) → List (String × Json)
amounts_json [] = []
amounts_json ((address, amount) ∷ more) = (address, integer (pos amount)) ∷ amounts_json more

-- What the genesis block commits to: the message and the allocations.
unfoldable pub commitment : GenesisConfig → Json
unfolding text fields_json amounts_json
commitment config = entries_json (
    ("message", text config.message)
    ∷ ("allocations", entries_json (amounts_json config.allocations))
    ∷ [])

-- The block before it has its hash.
abbrev unhashed : GenesisConfig → (difficulty : ℕ) (merkle_root : String) → Block
unhashed config difficulty merkle_root = record {
  chain_id = config.chain_id;
  index = 0;
  prev_hash = zero_hash;
  timestamp = config.timestamp;
  difficulty = difficulty;
  merkle_root = merkle_root;
  nonce = 0;
  transactions = [];
  hash = "";
}

abbrev with_hash : Block → Option String → Option Block
with_hash block none = none
with_hash block (some hash) = some (record block { hash = hash })

abbrev with_root : (Text → String) → GenesisConfig → ℕ → Option String → Option Block
with_root sha256 config difficulty none = none
with_root sha256 config difficulty (some merkle_root) =
    let block = unhashed config difficulty merkle_root in
    with_hash block (compute_hash sha256 block)

abbrev with_difficulty : (Text → String) → GenesisConfig → ℤ → Option Block
with_difficulty sha256 config (negsuc n) = none
with_difficulty sha256 config (pos difficulty) =
    with_root sha256 config difficulty (hash_object sha256 (commitment config))

-- `createGenesisBlock`; none where it throws, and where the difficulty is below 0, which `Block` does
-- not represent.
unfoldable pub create_genesis_block : (Text → String) → GenesisConfig → Option Block
create_genesis_block sha256 config = with_difficulty sha256 config config.difficulty
