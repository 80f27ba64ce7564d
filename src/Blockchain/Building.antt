-- ===== src/Blockchain/Building.antt =====
-- `createCoinbase`, `buildBlock` and `buildCandidate`: the block that a miner works on.
use mineverse.Prelude.{
  ℕ, ◌+◌, ◌-◌, ◌<◌, max, String, none, some, List, ◌∷◌, map, ◌≡◌, arith, length, get_elem?, Result,
  ok, err, ◌>>=◌, ◌>>◌, >>=-eq-ok, require,
}
use mineverse.Config.{chain_id, block_reward, max_amount}
use mineverse.Bank.Contracts.{text_or_empty}
use mineverse.Transaction.{Payload, Transaction}
use mineverse.Transaction.Fields.{TxError, require_int, require_address}
use mineverse.Block.{Block}
use mineverse.Hash.{merkle_root}
use mineverse.State.{add_each}
use mineverse.Env.{Env}
use mineverse.Blockchain.{Blockchain, Trial, assemble}
use mineverse.Blockchain.Rules.{expected_difficulty, median_time_past}

-- `createCoinbase`; the hash is that of the transaction without it.
unfoldable pub create_coinbase :
    (Transaction → String) → String → ℕ → ℕ → ℕ → Result TxError Transaction
create_coinbase tx_hash to reward fees height = do
  require_int height 0 max_amount
  require_address to
  require_int reward 0 max_amount
  require_int fees 0 max_amount
  let tx : Transaction = record {
    chain_id = chain_id;
    from = none;
    nonce = height;
    fee = 0;
    timestamp = 0;
    payload = Payload.coinbase to reward fees;
    hash = "";
    signature = none;
  }
  ok (record tx { hash = tx_hash tx })

-- `buildBlock`; the Merkle root is always reached.
unfoldable pub build_block : Env → ℕ → String → ℕ → ℕ → List Transaction → ℕ → Block
build_block env index prev_hash timestamp difficulty transactions nonce =
    let block : Block = record {
      chain_id = chain_id;
      index = index;
      prev_hash = prev_hash;
      timestamp = timestamp;
      difficulty = difficulty;
      merkle_root =
          text_or_empty
            (merkle_root env.lib.sha256 (map (λ (t : Transaction). t.hash) transactions));
      nonce = nonce;
      transactions = transactions;
      hash = "";
    } in
    record block { hash = env.header_hash block }

pub data BuildError : Type 0 where
  no_block : BuildError
  bad_coinbase : TxError → BuildError

abbrev as_build : Result TxError Transaction → Result BuildError Transaction
as_build (ok tx) = ok tx
as_build (err e) = err (bad_coinbase e)

-- `Math.max(now, mtp + 1, prev.timestamp + 1)`
unfoldable pub candidate_timestamp : List Block → Block → ℕ → ℕ
candidate_timestamp blocks prev now =
    max now (max (median_time_past blocks (length blocks) + 1) (prev.timestamp + 1))

-- `buildCandidate`: the block, and the trial whose strikes the mempool keeps.
unfoldable pub build_candidate : Env → ℕ → Blockchain → String → Result BuildError (Block × Trial)
unfolding candidate_timestamp build_block
build_candidate env now chain miner = do
  let index = length chain.blocks
  prev ← require (get_elem? chain.blocks (index - 1)) no_block
  difficulty ← require (expected_difficulty chain.blocks index chain.genesis.difficulty) no_block
  let timestamp = candidate_timestamp chain.blocks prev now
  let trial = assemble env (record { timestamp = timestamp; height = index }) chain
  let fees = add_each (λ (tx : Transaction). tx.fee) 0 trial.accepted
  coinbase ← as_build (create_coinbase env.tx_hash miner block_reward fees index)
  ok (build_block env index prev.hash timestamp difficulty (coinbase ∷ trial.accepted) 0, trial)

-- A candidate follows the chain's last block: it has the next index, the hash of that block, the
-- expected difficulty, and a timestamp after the median time and after that block.
pub build_candidate-follows :
    (env : Env) (now : ℕ) (chain : Blockchain) (miner : String) {block : Block} {trial : Trial}
    → build_candidate env now chain miner ≡ ok (block, trial)
    → (block.index ≡ length chain.blocks)
      × (expected_difficulty chain.blocks block.index chain.genesis.difficulty
          ≡ some block.difficulty)
      × (median_time_past chain.blocks block.index < block.timestamp)
      × ((prev : Block) × (get_elem? chain.blocks (block.index - 1) ≡ some prev)
          × (block.prev_hash ≡ prev.hash)
          × (prev.timestamp < block.timestamp))
unfolding build_candidate
build_candidate-follows env now chain miner {block} h =
    let index = length chain.blocks in
    let (prev, e1, h1) = >>=-eq-ok (require (get_elem? chain.blocks (index - 1)) no_block) _ h in
    let (d, e2, h2) =
      >>=-eq-ok (require (expected_difficulty chain.blocks index chain.genesis.difficulty) no_block)
        _ h1 in
    let (c, e3, h3) = >>=-eq-ok _ _ h2 in
    (ground arith, ground arith, ground arith, (prev, ground arith, ground arith, ground arith))
