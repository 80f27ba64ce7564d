-- ===== src/Tests/Chains.antt =====
-- A chain that takes a block, and one that is replaced.
use mineverse.Prelude.{◌+◌, ◌*◌, ◌<◌, ◌≤◌, none, List, [], ◌∷◌, ◌>>=◌, ◌≡◌, refl, ok, length}
use mineverse.Dict
use mineverse.Records.{State, Choice, empty_state}
use mineverse.Ledger.{Call, checked_add, get_account, held, credit_native, debit_native}
use mineverse.Ledger.Supply.{supply}
use mineverse.Bank
use mineverse.Land.{contains}
use mineverse.Block.{Block, block_work, total_work}
use mineverse.Block.Validate.{validate_block_structure}
use mineverse.Hash.{merkle_root, meets_difficulty}
use mineverse.Keys.{address_from_public_key, verify, is_valid_public_key, is_valid_address, is_hash}
use mineverse.Transaction.Fields.{
  require_int, require_address, require_string, require_symbol, units,
}
use mineverse.Transaction.Validate.{validate_transaction}
use mineverse.State.{
  handle, sender_of, apply_transaction, apply_all, process_expirations, fee_total, check_coinbase,
  apply_block,
}
use mineverse.State.Core
use mineverse.Genesis.{genesis_state}
use mineverse.Mempool
use mineverse.Blockchain.{
  Blockchain, new_blockchain, first_state, add_block, replace_chain, validate_chain, replay_block,
  replay_from, orphans, readd, index_blocks, see_transactions, check_unindexed, index_transactions,
}
use mineverse.State.{add_each}
use mineverse.Blockchain.{assemble}
use mineverse.Mempool.Select.{select_for_block}
use mineverse.Blockchain.Rules.{check_context}
use mineverse.Blockchain.History.{
  run_blocks, IsReplay, new_blockchain-IsReplay, add_block-IsReplay, replace_chain-IsReplay,
}
use mineverse.Bank.Escrow.{IsEscrowed}
use mineverse.Prelude.{◌-◌, Result, err, some, get_elem?}
use mineverse.Blockchain.{Trial}
use mineverse.Blockchain.Building.{
  BuildError, create_coinbase, build_candidate, build_candidate-follows,
}
use mineverse.Blockchain.Rules.{expected_difficulty, median_time_past}
use mineverse.Tests.Samples.{miner}
use mineverse.Blockchain.Escrow.{blocks-IsEscrowed}
use mineverse.Blockchain.Spending.{EachRefused, blocks-EachRefused}
use mineverse.Blockchain.Ballots.{ballots_in, ballots_in-IsReplay}
use mineverse.Transaction.{Payload}
use mineverse.State.Core.{cast_vote}
use mineverse.Tests.Samples.{block_of, coinbase_tx, signed, payment_hash, alice, digest}
use mineverse.Blockchain.Supply.{supply-IsReplay}
use mineverse.Tests.Samples.{env, lib, now, genesis, genesis_block, mined_block, chain_after}

program : Unit {0}
unfolding ◌>>=◌ Dict.empty Dict.get Dict.put Dict.keys Dict.values Dict.sort_keys Dict.remove
    empty_state checked_add get_account credit_native debit_native address_from_public_key handle
    sender_of apply_transaction apply_all process_expirations fee_total check_coinbase apply_block
    Core.transfer Bank.process_expirations validate_block_structure merkle_root meets_difficulty
    validate_transaction require_int require_address require_string units verify is_valid_public_key
    is_valid_address is_hash genesis_state first_state new_blockchain add_block check_unindexed
    index_transactions check_context block_work replace_chain validate_chain replay_block
    replay_from total_work orphans readd index_blocks see_transactions contains require_symbol
    Mempool.remove Mempool.reconcile Mempool.empty_mempool held
program = tt

abbrev pub first_chain : Blockchain
first_chain = new_blockchain genesis genesis_block

abbrev pub second_chain : Blockchain
second_chain = chain_after first_chain (add_block env now first_chain mined_block)

pub add_mined_block : add_block env now first_chain mined_block ≡ ok second_chain
unfolding program
add_mined_block = refl

pub first_chain-IsReplay : IsReplay lib first_chain
first_chain-IsReplay = new_blockchain-IsReplay lib genesis genesis_block

add_block-IsReplay_example : IsReplay lib second_chain
add_block-IsReplay_example =
    add_block-IsReplay env now first_chain mined_block first_chain-IsReplay add_mined_block

second_chain-IsReplay : IsReplay lib second_chain
second_chain-IsReplay =
    add_block-IsReplay env now first_chain mined_block first_chain-IsReplay add_mined_block

supply-IsReplay_example :
    supply second_chain.state + 50
    ≡ Dict.total (λ n. n) genesis.allocations
      + 50 * length second_chain.blocks
      + second_chain.state.bank.interest_paid
unfolding program
supply-IsReplay_example = supply-IsReplay lib second_chain second_chain-IsReplay

abbrev pub candidate : List Block
candidate = genesis_block ∷ mined_block ∷ []

abbrev replaced_chain : Blockchain
replaced_chain = chain_after first_chain (replace_chain env now first_chain candidate)

replace_by_candidate : replace_chain env now first_chain candidate ≡ ok replaced_chain
unfolding program
replace_by_candidate = refl

replace_chain-IsReplay_example :
    IsReplay lib replaced_chain
    × (replaced_chain.blocks ≡ candidate)
    × (first_chain.work < replaced_chain.work)
replace_chain-IsReplay_example =
    replace_chain-IsReplay env now first_chain candidate replace_by_candidate

blocks-EachRefused_example : EachRefused lib second_chain-IsReplay.rest second_chain.state
blocks-EachRefused_example = blocks-EachRefused lib second_chain second_chain-IsReplay

blocks-IsEscrowed_example : IsEscrowed second_chain.state
blocks-IsEscrowed_example = blocks-IsEscrowed lib second_chain second_chain-IsReplay

abbrev state_of : Call State → State
state_of (ok s) = s
state_of (err e) = empty_state

-- A block in which a vote is put up and voted in.
abbrev poll_block : Block
poll_block = block_of (
    coinbase_tx 4 1
    ∷ signed (Payload.create_vote "Build a bridge?" 60000 none) 0 payment_hash
    ∷ signed (Payload.cast_vote payment_hash Choice.yes_vote) 1 digest
    ∷ [])

abbrev poll_chain : Blockchain
poll_chain = record first_chain {
  blocks = genesis_block ∷ poll_block ∷ [];
  state = state_of (run_blocks lib (first_state genesis genesis_block) (poll_block ∷ []));
  work = 131072;
}

poll_chain-IsReplay : IsReplay lib poll_chain
unfolding program run_blocks cast_vote Core.create_vote
poll_chain-IsReplay = record {
  first = genesis_block;
  rest = poll_block ∷ [];
  blocks_eq = refl;
  first_eq = refl;
  state_eq = refl;
  work_eq = refl;
}

poll_ballots : ballots_in lib alice payment_hash (poll_block ∷ []) ≡ 1
unfolding program ballots_in
poll_ballots = refl

ballots_in-IsReplay_example : ballots_in lib alice payment_hash poll_chain-IsReplay.rest ≤ 1
ballots_in-IsReplay_example =
    ballots_in-IsReplay lib alice payment_hash poll_chain poll_chain-IsReplay

abbrev built_block : Result BuildError (Block × Trial) → Block
built_block (ok (b, trial)) = b
built_block (err e) = genesis_block

abbrev built_trial : Result BuildError (Block × Trial) → Trial
built_trial (ok (b, trial)) = trial
built_trial (err e) = record { accepted = []; working = empty_state; pool = Mempool.empty_mempool }

abbrev next_block : Block
next_block = built_block (build_candidate env now first_chain miner)

abbrev next_trial : Trial
next_trial = built_trial (build_candidate env now first_chain miner)

build_next : build_candidate env now first_chain miner ≡ ok (next_block, next_trial)
unfolding program build_candidate create_coinbase expected_difficulty require_int require_address
    is_valid_address add_each assemble select_for_block
build_next = refl

build_candidate-follows_example :
    (next_block.index ≡ length first_chain.blocks)
    × (expected_difficulty first_chain.blocks next_block.index first_chain.genesis.difficulty
        ≡ some next_block.difficulty)
    × (median_time_past first_chain.blocks next_block.index < next_block.timestamp)
    × ((prev : Block) × (get_elem? first_chain.blocks (next_block.index - 1) ≡ some prev)
        × (next_block.prev_hash ≡ prev.hash)
        × (prev.timestamp < next_block.timestamp))
build_candidate-follows_example = build_candidate-follows env now first_chain miner build_next
