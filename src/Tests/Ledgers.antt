-- ===== src/Tests/Ledgers.antt =====
-- The supply at a concrete block.
use mineverse.Prelude.{◌+◌, ◌>>=◌, ◌≡◌, refl, [], ok}
use mineverse.Dict
use mineverse.Records.{State, empty_state}
use mineverse.Ledger.{checked_add, get_account, credit_native, debit_native}
use mineverse.Ledger.Supply.{supply}
use mineverse.Bank
use mineverse.Keys.{address_from_public_key}
use mineverse.State.{
  handle, sender_of, apply_transaction, apply_all, process_expirations, fee_total, check_coinbase,
  apply_block,
}
use mineverse.State.Core
use mineverse.State.Conservation.{supply-apply_block}
use mineverse.Tests.Samples.{lib, start, block_one, state_after}

unfoldable pub program : Unit {0}
unfolding ◌>>=◌ Dict.empty Dict.get Dict.put Dict.keys Dict.sort_keys empty_state checked_add
    get_account credit_native debit_native address_from_public_key handle sender_of
    apply_transaction apply_all process_expirations fee_total check_coinbase apply_block
    Core.transfer Bank.process_expirations
program = tt

abbrev after_block_one : State
after_block_one = state_after (apply_block lib start block_one)

apply_block_one : apply_block lib start block_one ≡ ok (after_block_one, [])
unfolding program
apply_block_one = refl

supply-apply_block_example :
    supply after_block_one + start.bank.interest_paid
    ≡ supply start + 50 + after_block_one.bank.interest_paid
supply-apply_block_example = supply-apply_block lib start block_one apply_block_one
