-- ===== src/Tests/Pools.antt =====
-- A transaction that waits and is taken into a candidate, and the rules that count.
use mineverse.Prelude.{
  ℕ, ◌+◌, ◌-◌, ◌*◌, ◌/◌, ◌≤◌, ◌<◌, String, some, List, [], ◌∷◌, ◌>>=◌, ◌≡◌, refl, arith, ok, length,
}
use mineverse.Dict
use mineverse.Records.{Context, Receipt, State}
use mineverse.Prelude.{Result, err}
use mineverse.Config.{max_mempool_txs}
use mineverse.Ledger.{held, amount_out, in_after_fee, fee_of}
use mineverse.Ledger.Fees.{fee_of-le, fee_of_exact}
use mineverse.Ledger.Swaps.{amount_out-product}
use mineverse.Bank.Supply.{Moves}
use mineverse.Keys.{verify, is_valid_public_key, is_valid_address, is_hash}
use mineverse.Transaction.{Payload, Transaction}
use mineverse.Transaction.Fields.{
  require_int, require_address, require_string, require_symbol, units,
}
use mineverse.Transaction.Validate.{validate_transaction}
use mineverse.Block.{Block}
use mineverse.Hash.{merkle_root}
use mineverse.Hash.Merkle.{merkle_root-total}
use mineverse.State.{apply_transaction, apply_all}
use mineverse.Prelude.{false, str_eq, if◌then◌else◌}
use mineverse.Ledger.Nonces.{nonce_of}
use mineverse.State.{is_coinbase, sender_of}
use mineverse.State.Replay.{apply_transaction-nonce}
use mineverse.State.Conservation.{apply_transaction-Moves}
use mineverse.Mempool
use mineverse.Mempool.{Mempool, Refusal}
use mineverse.Mempool.Bounds.{CountsFrom, run_from-CountsFrom, add-size}
use mineverse.Mempool.Select.{run_from}
use mineverse.Blockchain.{Blockchain, new_blockchain, assemble}
use mineverse.Blockchain.Candidate.{assemble-applies}
use mineverse.Blockchain.Retarget.{IsAllowed, expected_difficulty-near}
use mineverse.Blockchain.Rules.{expected_difficulty}
use mineverse.Tests.Samples.{
  env, lib, now, start, digest, payment_hash, pay_bob, signed, genesis, genesis_block, state_after,
}
use mineverse.Tests.Ledgers.{program}

waiting : Unit {0}
unfolding program Dict.values held validate_transaction require_int require_address require_string
    require_symbol units verify is_valid_public_key is_valid_address is_hash Mempool.add
    Mempool.empty_mempool
waiting = tt

abbrev ctx : Context
ctx = record { timestamp = 1700000005000; height = 1 }

abbrev paid : State
paid = state_after (apply_transaction lib pay_bob ctx start)

payment : apply_transaction lib pay_bob ctx start ≡ ok (paid, [])
unfolding program
payment = refl

apply_transaction-Moves_example : Moves 2 0 start paid
apply_transaction-Moves_example = apply_transaction-Moves lib pay_bob ctx start payment

abbrev pool_after : Result Refusal Mempool → Mempool
pool_after (ok pool) = pool
pool_after (err e) = Mempool.empty_mempool

abbrev pool : Mempool
pool = pool_after (Mempool.add env now pay_bob start Mempool.empty_mempool)

add_payment : Mempool.add env now pay_bob start Mempool.empty_mempool ≡ ok pool
unfolding waiting
add_payment = refl

add-size_example : length (Dict.values pool.txs) ≤ max_mempool_txs
add-size_example = add-size env now pay_bob start Mempool.empty_mempool add_payment

abbrev busy_chain : Blockchain
busy_chain = record (new_blockchain genesis genesis_block) { mempool = pool }

assemble-applies_example :
    (rs : List Receipt) × (apply_all lib
        (assemble env ctx busy_chain).accepted
        ctx
        busy_chain.state
        []
      ≡ ok ((assemble env ctx busy_chain).working, rs))
assemble-applies_example = assemble-applies env ctx busy_chain

abbrev at_nonce : ℕ → Transaction
at_nonce n = signed (Payload.register_uuid "00000000-0000-0000-0000-000000000000") n payment_hash

run_from-CountsFrom_example :
    CountsFrom 4 (run_from 3 4 (at_nonce 5 ∷ at_nonce 9 ∷ at_nonce 4 ∷ []))
run_from-CountsFrom_example = run_from-CountsFrom 3 4 (at_nonce 5 ∷ at_nonce 9 ∷ at_nonce 4 ∷ [])

trade : amount_out 1000 50000 80000 ≡ ok 1564
unfolding amount_out in_after_fee ◌>>=◌
trade = refl

amount_out-product_example :
    (1 ≤ 1564) × (1564 < 80000) × (50000 * 80000 ≤ (50000 + 1000) * (80000 - 1564))
amount_out-product_example = amount_out-product 1000 50000 80000 trade

fee_of-le_example : fee_of 123456 250 ≤ 123456
fee_of-le_example = fee_of-le 123456 250 (omega arith)

fee_of_exact_example : fee_of 123456 250 ≡ 123456 * 250 / 10000
fee_of_exact_example = fee_of_exact 123456 250 (omega arith)

merkle_root-total_example :
    (root : String) × (merkle_root lib.sha256 (digest ∷ payment_hash ∷ digest ∷ []) ≡ some root)
merkle_root-total_example = merkle_root-total lib.sha256 (digest ∷ payment_hash ∷ digest ∷ [])

abbrev hard_chain : List Block
hard_chain = record genesis_block { difficulty = 20 } ∷ []

next_difficulty : expected_difficulty hard_chain 1 16 ≡ some 20
unfolding expected_difficulty
next_difficulty = refl

expected_difficulty-near_example : IsAllowed 20 × (20 ≤ 20 + 1) × (20 ≤ 20 + 1)
expected_difficulty-near_example =
    expected_difficulty-near hard_chain 0 16 (record genesis_block { difficulty = 20 }) refl
      (omega arith) next_difficulty

apply_transaction-nonce_example :
    (from : String) × (sender_of lib pay_bob ≡ some from)
    × (0 ≡ nonce_of start.accounts from)
    × (is_coinbase pay_bob.payload ≡ false)
    × ((who : String)
        → nonce_of paid.accounts who
          ≡ (if str_eq from who then 0 + 1 else nonce_of start.accounts who))
apply_transaction-nonce_example = apply_transaction-nonce lib pay_bob ctx start payment
