-- ===== src/Blockchain.antt =====
-- The class `Blockchain` of src/core/blockchain.js: the chain, its state, and how both change.
pub mod Ballots
pub mod Building
pub mod Candidate
pub mod Escrow
pub mod Forgery
pub mod History
pub mod Index
pub mod Lookup
pub mod Mining
pub mod Retarget
pub mod Rules
pub mod Spending
pub mod Storage
pub mod Supply
pub mod View
use mineverse.Prelude.{
  ℕ, zero, suc, ◌+◌, ◌-◌, max, String, Bool, true, false, Option, none, some, List, [], ◌∷◌, ◌++◌,
  map, ltb, leb, ◌==◌, not, length, get_elem?, str_eq, if◌then◌else◌, Result, ok, err, ◌>>=◌, ◌>>◌,
  fail_if, require,
}
use mineverse.Config.{chain_id, block_reward, max_txs_per_block}
use mineverse.Dict
use mineverse.Dict.{Dict}
use mineverse.Records.{State, Context, Receipt}
use mineverse.Ledger.{Call}
use mineverse.Bank.Contracts.{is_some}
use mineverse.Land.{contains}
use mineverse.Transaction.{Payload, Transaction}
use mineverse.Block.{Block, block_work, total_work}
use mineverse.Block.Validate.{BlockCheck, validate_block_structure}
use mineverse.State.{Outcome, is_coinbase, apply_transaction, apply_block}
use mineverse.Mempool
use mineverse.Mempool.{Mempool, Refusal, sender_text}
use mineverse.Mempool.Select.{select_for_block}
use mineverse.Genesis.{Genesis, genesis_state}
use mineverse.Env.{Env}
use Rules.{
  ChainError, tx_replayed, empty_chain, different_genesis, already_known, no_more_work, unreadable,
  bad_block, bad_state, expected_difficulty, median_time_past, check_context,
}

-- Where a transaction stands: the index of its block, and its position there.
abbrev pub Located : Type 0
Located = ℕ × ℕ

pub record Blockchain : Type 0 where
  pub genesis : Genesis
  pub genesis_block : Block
  pub blocks : List Block
  pub state : State
  pub receipts : List Receipt
  pub mempool : Mempool
  pub by_hash : Dict Block
  pub tx_index : Dict Located
  pub work : ℕ

-- The state that a replay starts from.
unfoldable pub first_state : Genesis → Block → State
first_state genesis genesis_block = record (genesis_state genesis) {
  last_hash = some genesis_block.hash;
}

-- `new Blockchain(...)`, given what was read from the genesis file.
unfoldable pub new_blockchain : Genesis → Block → Blockchain
unfolding first_state
new_blockchain genesis genesis_block = record {
  genesis = genesis;
  genesis_block = genesis_block;
  blocks = genesis_block ∷ [];
  state = first_state genesis genesis_block;
  receipts = [];
  mempool = Mempool.empty_mempool;
  by_hash = Dict.put Dict.empty genesis_block.hash genesis_block;
  tx_index = Dict.empty;
  work = block_work genesis_block;
}

-- Errors of the layers below, as the `catch` of the callers sees them.
abbrev pub as_chain : BlockCheck → Result ChainError (Unit {0})
as_chain (ok u) = ok tt
as_chain (err e) = err (bad_block e)

abbrev pub as_chain_state : Call Outcome → Result ChainError Outcome
as_chain_state (ok r) = ok r
as_chain_state (err e) = err (bad_state e)

unfoldable pub index_transactions : ℕ → ℕ → List Transaction → Dict Located → Dict Located
index_transactions index pos [] index_by = index_by
index_transactions index pos (tx ∷ txs) index_by =
    index_transactions index (pos + 1) txs (Dict.put index_by tx.hash (index, pos))

-- The loop that adds to `seenTx`.
unfoldable pub see_transactions : List String → List Transaction → Result ChainError (List String)
see_transactions seen [] = ok seen
see_transactions seen (tx ∷ txs) = do
  fail_if (contains tx.hash seen) tx_replayed
  see_transactions (tx.hash ∷ seen) txs

unfoldable pub check_unindexed : Dict Located → List Transaction → Result ChainError (Unit {0})
check_unindexed index_by [] = ok tt
check_unindexed index_by (tx ∷ txs) = do
  fail_if (is_some (Dict.get index_by tx.hash)) tx_replayed
  check_unindexed index_by txs

-- What a replay has come to.
pub record Replay : Type 0 where
  pub state : State
  pub receipts : List Receipt
  pub tx_index : Dict Located
  pub seen : List String

module _ (env : Env) (now genesis_difficulty : ℕ) where
  -- One round of the loop in `validateChain`.
  unfoldable pub replay_block : List Block → ℕ → Block → Replay → Result ChainError Replay
  replay_block blocks i block r = do
    as_chain (validate_block_structure env now block)
    check_context genesis_difficulty block blocks i now
    seen ← see_transactions r.seen block.transactions
    (state, receipts) ← as_chain_state (apply_block env.lib r.state block)
    ok (record {
      state = state;
      receipts = r.receipts ++ receipts;
      tx_index = index_transactions i 0 block.transactions r.tx_index;
      seen = seen;
    })

  unfoldable pub replay_from : List Block → ℕ → List Block → Replay → Result ChainError Replay
  replay_from blocks i [] r = ok r
  replay_from blocks i (block ∷ rest) r = do
    next ← replay_block blocks i block r
    replay_from blocks (i + 1) rest next

module _ (env : Env) (now : ℕ) where
  unfoldable pub validate_chain : Blockchain → List Block → Result ChainError Replay
  validate_chain chain [] = err empty_chain
  validate_chain chain (first ∷ rest) = do
    fail_if (not (str_eq first.hash chain.genesis_block.hash)) different_genesis
    replay_from env now chain.genesis.difficulty (first ∷ rest) 1 rest (record {
      state = first_state chain.genesis chain.genesis_block;
      receipts = [];
      tx_index = Dict.empty;
      seen = [];
    })

  abbrev tx_hashes : List Transaction → List String
  tx_hashes = map (λ (tx : Transaction). tx.hash)

  -- `addBlock`: the chain after the block, or the reason why it is not added.
  unfoldable pub add_block : Blockchain → Block → Result ChainError Blockchain
  add_block chain block = do
    fail_if (is_some (Dict.get chain.by_hash block.hash)) already_known
    as_chain (validate_block_structure env now block)
    check_context chain.genesis.difficulty block chain.blocks (length chain.blocks) now
    check_unindexed chain.tx_index block.transactions
    (state, receipts) ← as_chain_state (apply_block env.lib chain.state block)
    let pool = Mempool.remove (tx_hashes block.transactions) chain.mempool
    ok (record chain {
      blocks = chain.blocks ++ block ∷ [];
      state = state;
      work = chain.work + block_work block;
      by_hash = Dict.put chain.by_hash block.hash block;
      receipts = chain.receipts ++ receipts;
      tx_index = index_transactions block.index 0 block.transactions chain.tx_index;
      mempool = Mempool.reconcile env.lib now state pool;
    })

  abbrev all_transactions : List Block → List Transaction
  all_transactions [] = []
  all_transactions (b ∷ blocks) = b.transactions ++ all_transactions blocks

  -- The transactions that a new chain leaves out.
  unfoldable pub orphans : List String → List Transaction → List Transaction
  orphans adopted [] = []
  orphans adopted (tx ∷ txs) =
      if is_coinbase tx.payload
      then orphans adopted txs
      else if contains tx.hash adopted
      then orphans adopted txs
      else tx ∷ orphans adopted txs

  -- `mempool.add` for each of them; a refusal is ignored.
  unfoldable pub readd : State → List Transaction → Mempool → Mempool
  readd s [] pool = pool
  readd s (tx ∷ txs) pool =
      readd s txs (elim (Mempool.add env now tx s pool) [ ok more ↦ more | err e ↦ pool ])

  unfoldable pub index_blocks : List Block → Dict Block → Dict Block
  index_blocks [] by_hash = by_hash
  index_blocks (b ∷ blocks) by_hash = index_blocks blocks (Dict.put by_hash b.hash b)

  -- `replaceChain`
  unfoldable pub replace_chain : Blockchain → List Block → Result ChainError Blockchain
  unfolding orphans
  replace_chain chain candidate = do
    fail_if (leb (total_work candidate) chain.work) no_more_work
    result ← validate_chain chain candidate
    let adopted = tx_hashes (all_transactions candidate)
    let orphaned = orphans adopted (all_transactions chain.blocks)
    let pool = readd result.state orphaned (Mempool.remove adopted chain.mempool)
    ok (record chain {
      blocks = candidate;
      state = result.state;
      receipts = result.receipts;
      tx_index = result.tx_index;
      work = total_work candidate;
      by_hash = index_blocks candidate Dict.empty;
      mempool = Mempool.reconcile env.lib now result.state pool;
    })

  -- `submitTransaction`
  unfoldable pub submit_transaction : Blockchain → Transaction → Result Refusal Blockchain
  submit_transaction chain tx = do
    pool ← Mempool.add env now tx chain.state chain.mempool
    ok (record chain { mempool = pool })

-- What the trial of the candidates comes to.
pub record Trial : Type 0 where
  pub accepted : List Transaction
  pub working : State
  pub pool : Mempool

module _ (env : Env) (ctx : Context) where
  -- One candidate: applied to the working state, or left out with a strike.
  unfoldable pub try_transaction : Transaction → Trial → Trial
  try_transaction tx r = elim (apply_transaction env.lib tx ctx r.working) [
    | ok (t, receipts) ↦ record r { accepted = r.accepted ++ tx ∷ []; working = t }
    | err e ↦ record r { pool = Mempool.penalize tx.hash ctx.height r.pool }
  ]

  unfoldable pub try_all : List Transaction → Trial → Trial
  unfolding try_transaction
  try_all [] r = r
  try_all (tx ∷ txs) r = try_all txs (try_transaction tx r)

  -- `buildCandidate` from the selection on: the transactions of the next block and the pool.
  unfoldable pub assemble : Blockchain → Trial
  unfolding try_all
  assemble chain =
      try_all
        (select_for_block (sender_text env.lib) chain.state (max_txs_per_block - 1)
          chain.mempool.txs)
        (record { accepted = []; working = chain.state; pool = chain.mempool })
