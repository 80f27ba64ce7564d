-- ===== src/Tests/Samples.antt =====
-- Sample data: a stand-in for the crypto library, a state, a block.
use mineverse.Prelude.{ℕ, String, true, some, none, List, [], ◌∷◌, Result, ok, err}
use mineverse.Dict
use mineverse.Records.{Account, State, empty_state}
use mineverse.Ledger.{Call}
use mineverse.Keys.{CryptoLib}
use mineverse.Transaction.{Payload, Transaction}
use mineverse.Block.{Block}
use mineverse.State.{Outcome}
use mineverse.Hash.{zero_hash}
use mineverse.Genesis.{Genesis}
use mineverse.Env.{Env}
use mineverse.Blockchain.{Blockchain}
use mineverse.Blockchain.Rules.{ChainError}

abbrev pub digest : String
digest = "00112233445566778899aabbccddeeff00112233445566778899aabbccddeeff"

abbrev pub lib : CryptoLib
lib = record {
  digest_of_hex = λ hex. digest;
  sha256 = λ text. digest;
  is_curve_point = λ hex. true;
  verify_signature = λ key d signature. true;
}

abbrev pub alice_key : String
alice_key =
    "0400000000000000000000000000000000000000000000000000000000000000000000000000000000000000000000000000000000000000000000000000000000"

-- The address of `alice_key` under `lib`.
abbrev pub alice : String
alice = "mv00112233445566778899aabbccddeeff00112233"

abbrev pub bob : String
bob = "mvbbbbbbbbbbbbbbbbbbbbbbbbbbbbbbbbbbbbbbbb"

abbrev pub miner : String
miner = "mvcccccccccccccccccccccccccccccccccccccccc"

abbrev pub with_coin : ℕ → Account
with_coin n = record { balance = n; nonce = 0; tokens = Dict.empty; uuid = none }

abbrev pub start : State
start = record empty_state {
  blocks_applied = 1;
  accounts = Dict.put (Dict.put Dict.empty alice (with_coin 1000)) bob (with_coin 20);
}

abbrev pub coinbase_tx : ℕ → ℕ → Transaction
coinbase_tx fees height = record {
  chain_id = "mineverse-2";
  from = none;
  nonce = height;
  fee = 0;
  timestamp = 0;
  payload = Payload.coinbase miner 50 fees;
  hash = "c0";
  signature = none;
}

abbrev pub signed : Payload → ℕ → String → Transaction
signed p nonce hash = record {
  chain_id = "mineverse-2";
  from = some alice_key;
  nonce = nonce;
  fee = 2;
  timestamp = 1700000000000;
  payload = p;
  hash = hash;
  signature = some "30";
}

abbrev pub block_of : List Transaction → Block
block_of txs = record {
  chain_id = "mineverse-2";
  index = 1;
  prev_hash = digest;
  timestamp = 1700000005000;
  difficulty = 16;
  merkle_root = digest;
  nonce = 0;
  transactions = txs;
  hash = digest;
}

abbrev pub payment_hash : String
payment_hash = "ab112233445566778899aabbccddeeff00112233445566778899aabbccddeeff"

abbrev pub pay_bob : Transaction
pay_bob = signed (Payload.transfer bob 300 "MVC") 0 payment_hash

abbrev pub block_one : Block
block_one = block_of (coinbase_tx 2 1 ∷ pay_bob ∷ [])

-- The state of an outcome.
abbrev pub state_after : Call Outcome → State
state_after (ok (t, rs)) = t
state_after (err e) = empty_state

-- A hash with 40 leading zero bits.
abbrev pub low_hash : String
low_hash = "0000000000112233445566778899aabbccddeeff00112233445566778899aabb"

-- Hashes are what a transaction or a block says.
abbrev pub env : Env
env = record {
  lib = lib;
  tx_hash = λ tx. tx.hash;
  header_hash = λ block. block.hash;
  block_size = λ block. 1000;
  state_root = λ s. digest;
}

abbrev pub now : ℕ
now = 1700000006000

abbrev pub genesis : Genesis
genesis = record {
  timestamp = 1700000000000;
  difficulty = 16;
  allocations = Dict.put Dict.empty alice 1000;
}

abbrev pub genesis_block : Block
genesis_block = record {
  chain_id = "mineverse-2";
  index = 0;
  prev_hash = zero_hash;
  timestamp = 1700000000000;
  difficulty = 16;
  merkle_root = zero_hash;
  nonce = 0;
  transactions = [];
  hash = digest;
}

abbrev pub mined_block : Block
mined_block = record block_one { hash = low_hash }

abbrev pub chain_after : Blockchain → Result ChainError Blockchain → Blockchain
chain_after old (ok new) = new
chain_after old (err e) = old
