-- ===== src/Env.antt =====
-- What the chain takes from outside: the crypto libraries, and `txHash`, `computeHash`, `blockSize` and
-- `stateRoot` as functions that always return. Serial has the first two as the source computes them.
use mineverse.Prelude.{ℕ, String}
use mineverse.Records.{State}
use mineverse.Keys.{CryptoLib}
use mineverse.Transaction.{Transaction}
use mineverse.Block.{Block}

pub record Env : Type 0 where
  pub lib : CryptoLib
  pub tx_hash : Transaction → String
  pub header_hash : Block → String
  pub block_size : Block → ℕ
  pub state_root : State → String
