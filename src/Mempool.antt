-- ===== src/Mempool.antt =====
-- src/core/mempool.js: the transactions that wait to be mined.
pub mod Bounds
pub mod Select
use mineverse.Prelude.{
  ℕ, ◌+◌, ◌-◌, String, Bool, true, false, Option, none, some, List, [], ◌∷◌, ltb, leb, ◌==◌, ◌&&◌,
  length, str_eq, if◌then◌else◌, Result, ok, err, ◌>>=◌, ◌>>◌, fail_if,
}
use mineverse.Config.{max_mempool_txs, tx_expiry_ms}
use mineverse.Dict
use mineverse.Dict.{Dict}
use mineverse.Records.{Account, State}
use mineverse.Ledger.{get_account}
use mineverse.Keys.{CryptoLib}
use mineverse.Bank.Contracts.{is_some, text_or_empty}
use mineverse.Transaction.{Transaction}
use mineverse.Transaction.Fields.{TxError, Check}
use mineverse.Transaction.Validate.{validate_transaction}
use mineverse.State.{is_coinbase, sender_of}
use mineverse.Env.{Env}

pub record Strike : Type 0 where
  pub count : ℕ
  pub last_height : ℕ

pub record Mempool : Type 0 where
  pub txs : Dict Transaction
  pub strikes : Dict Strike

abbrev pub max_strikes : ℕ
max_strikes = 3

unfoldable pub empty_mempool : Mempool
empty_mempool = record { txs = Dict.empty; strikes = Dict.empty }

pub data Refusal : Type 0 where
  coinbase_is_block_local duplicate mempool_full nonce_already_used nonce_too_far_ahead : Refusal
  too_many_pending cannot_afford_fee : Refusal
  invalid : TxError → Refusal

abbrev as_refusal : Check → Result Refusal (Unit {0})
as_refusal (ok u) = ok tt
as_refusal (err e) = err (invalid e)

-- The sender's address. Every transaction of a pool was validated, so it has one.
abbrev pub sender_text : CryptoLib → Transaction → String
sender_text lib tx = text_or_empty (sender_of lib tx)

-- `this.all().filter((t) => senderOf(t) === from).length`
unfoldable pub count_from : CryptoLib → String → List Transaction → ℕ
count_from lib from [] = 0
count_from lib from (tx ∷ txs) =
    (if str_eq (sender_text lib tx) from then 1 else 0) + count_from lib from txs

module _ (env : Env) where
  -- `add`: the reason for a refusal, or the pool with the transaction. An account that does not
  -- exist counts as one with no coin and nonce 0.
  unfoldable pub add : ℕ → Transaction → State → Mempool → Result Refusal Mempool
  unfolding count_from
  add now tx s pool = do
    fail_if (is_coinbase tx.payload) coinbase_is_block_local
    as_refusal (validate_transaction env.lib env.tx_hash now tx)
    fail_if (is_some (Dict.get pool.txs tx.hash)) duplicate
    fail_if (leb max_mempool_txs (length (Dict.values pool.txs))) mempool_full
    let from = sender_text env.lib tx
    let acct = get_account s from
    fail_if (ltb tx.nonce acct.nonce) nonce_already_used
    let pending = count_from env.lib from (Dict.values pool.txs)
    fail_if (ltb (acct.nonce + 16) tx.nonce) nonce_too_far_ahead
    fail_if (leb 16 pending) too_many_pending
    fail_if (ltb acct.balance tx.fee) cannot_afford_fee
    ok (record pool { txs = Dict.put pool.txs tx.hash tx })

-- One hash of `remove`, and what `penalize` and `reconcile` drop.
unfoldable pub drop_tx : String → Mempool → Mempool
drop_tx hash pool = record {
  txs = Dict.remove pool.txs hash;
  strikes = Dict.remove pool.strikes hash;
}

unfoldable pub remove : List String → Mempool → Mempool
unfolding drop_tx
remove [] pool = pool
remove (hash ∷ hashes) pool = remove hashes (drop_tx hash pool)

-- What a failed attempt at a height does to the count so far.
unfoldable pub strike : String → ℕ → ℕ → Mempool → Mempool
unfolding drop_tx
strike hash height count pool =
    if leb max_strikes (count + 1) then drop_tx hash pool else record pool {
      strikes = Dict.put pool.strikes hash (record { count = count + 1; last_height = height });
    }

unfoldable pub penalize : String → ℕ → Mempool → Mempool
unfolding strike
penalize hash height pool = elim (Dict.get pool.strikes hash) [
  | none ↦ strike hash height 0 pool
  | some r ↦ if r.last_height == height then pool else strike hash height r.count pool
]

module _ (lib : CryptoLib) (now : ℕ) (s : State) where
  unfoldable pub is_stale : Transaction → Bool
  is_stale tx =
      if ltb tx.nonce (get_account s (sender_text lib tx)).nonce
      then true
      else ltb tx_expiry_ms (now - tx.timestamp)

  unfoldable pub reconcile_each : List Transaction → List String → Mempool → Mempool
  unfolding is_stale drop_tx
  reconcile_each [] hashes pool = pool
  reconcile_each (tx ∷ txs) [] pool = pool
  reconcile_each (tx ∷ txs) (hash ∷ hashes) pool =
      reconcile_each txs hashes (if is_stale tx then drop_tx hash pool else pool)

  -- `for (const [hash, tx] of this.txs)`
  unfoldable pub reconcile : Mempool → Mempool
  unfolding reconcile_each
  reconcile pool = reconcile_each (Dict.values pool.txs) (Dict.keys pool.txs) pool
