-- ===== src/Ledger.antt =====
-- src/core/ledger.js: accounts, balances, and the pricing curve. A function that writes to the
-- state returns the new state; one that throws loses it, as every caller of the source does.
pub mod Accounts
pub mod Fees
pub mod Nonces
pub mod Supply
pub mod Swaps
use mineverse.Prelude.{
  ℕ, ◌+◌, ◌-◌, ◌*◌, ◌/◌, String, true, none, some, ltb, leb, ◌==◌, str_eq, if◌then◌else◌, Result,
  ok, err, ◌>>=◌, ◌>>◌, fail_if,
}
use mineverse.Prelude.Number.{times, floor_div}
use mineverse.Config.{native, max_amount, swap_fee_bps}
use mineverse.Dict
use mineverse.Dict.{Dict}
use mineverse.Records.{
  StateError, overflow, insufficient_native, insufficient_token, unknown_currency,
  pool_has_no_liquidity, trade_too_small, trade_produces_zero_output, trade_exceeds_pool_reserves,
  output_overflow, below_zero, Account, State,
}

-- A call that returns or throws a `StateError`.
abbrev pub Call {ℓ} : Type ℓ → Type ℓ
Call A = Result StateError A

-- The sum of two safe integers is safe exactly if it is at most `max_amount`.
unfoldable pub checked_add : ℕ → ℕ → Call ℕ
checked_add a b = if leb (a + b) max_amount then ok (a + b) else err overflow

-- A subtraction that the source does not guard. Where it would go below 0 the source goes on with
-- a negative number, which the model does not represent: it stops with an error of its own.
unfoldable pub minus : ℕ → ℕ → Call ℕ
minus a b = if ltb a b then err below_zero else ok (a - b)

abbrev pub fresh_account : Account
fresh_account = record { balance = 0; nonce = 0; tokens = Dict.empty; uuid = none }

unfoldable pub get_account : State → String → Account
get_account s address = elim (Dict.get s.accounts address) [ none ↦ fresh_account | some a ↦ a ]

-- What is written through the reference that `getAccount` returns.
unfoldable pub set_account : State → String → Account → State
set_account s address a = record s { accounts = Dict.put s.accounts address a }

-- `held[symbol] || 0`
unfoldable pub held : Dict ℕ → String → ℕ
held d symbol = elim (Dict.get d symbol) [ none ↦ 0 | some n ↦ n ]

unfoldable pub credit_native : String → ℕ → State → Call State
unfolding get_account set_account
credit_native address amount s = do
  let acct = get_account s address
  balance ← checked_add acct.balance amount
  ok (set_account s address (record acct { balance = balance }))

unfoldable pub debit_native : String → ℕ → State → Call State
unfolding get_account set_account
debit_native address amount s = do
  let acct = get_account s address
  fail_if (ltb acct.balance amount) insufficient_native
  ok (set_account s address (record acct { balance = acct.balance - amount }))

unfoldable pub credit_token : String → String → ℕ → State → Call State
unfolding get_account set_account
credit_token address symbol amount s = do
  let acct = get_account s address
  balance ← checked_add (held acct.tokens symbol) amount
  ok (set_account s address (record acct { tokens = Dict.put acct.tokens symbol balance }))

-- What is left under a key: 0 deletes it.
unfoldable pub store_left : Dict ℕ → String → ℕ → Dict ℕ
store_left d symbol left = if left == 0 then Dict.remove d symbol else Dict.put d symbol left

unfoldable pub debit_token : String → String → ℕ → State → Call State
unfolding get_account set_account
debit_token address symbol amount s = do
  let acct = get_account s address
  let have = held acct.tokens symbol
  fail_if (ltb have amount) insufficient_token
  ok (
      set_account s address
        (record acct { tokens = store_left acct.tokens symbol (have - amount) }))

unfoldable pub require_asset : State → String → Call (Unit {0})
require_asset s symbol =
    if str_eq symbol native
    then ok tt
    else elim (Dict.get s.currencies symbol) [ none ↦ err unknown_currency | some _ ↦ ok tt ]

unfoldable pub credit_asset : String → String → ℕ → State → Call State
credit_asset address symbol amount s =
    if amount == 0
    then ok s
    else if str_eq symbol native
    then credit_native address amount s
    else credit_token address symbol amount s

unfoldable pub debit_asset : String → String → ℕ → State → Call State
debit_asset address symbol amount s =
    if amount == 0
    then ok s
    else if str_eq symbol native
    then debit_native address amount s
    else debit_token address symbol amount s

unfoldable pub balance_of_asset : State → String → String → ℕ
balance_of_asset s address symbol = elim (Dict.get s.accounts address) [
  | none ↦ 0
  | some acct ↦ if str_eq symbol native then acct.balance else held acct.tokens symbol
]

-- The part of an input that the pool's fee leaves.
unfoldable pub in_after_fee : ℕ → ℕ
in_after_fee amount_in = amount_in * (10000 - swap_fee_bps) / 10000

-- The constant-product curve, in BigInt arithmetic.
unfoldable pub amount_out : ℕ → ℕ → ℕ → Call ℕ
unfolding in_after_fee
amount_out amount_in reserve_in reserve_out = do
  fail_if (if reserve_in == 0 then true else reserve_out == 0) pool_has_no_liquidity
  let after = in_after_fee amount_in
  fail_if (after == 0) trade_too_small
  let out = reserve_out * after / (reserve_in + after)
  fail_if (out == 0) trade_produces_zero_output
  fail_if (leb reserve_out out) trade_exceeds_pool_reserves
  fail_if (ltb max_amount out) output_overflow
  ok out

-- `feeOf`: the product and the quotient are doubles.
unfoldable pub fee_of : ℕ → ℕ → ℕ
fee_of amount bps = floor_div (times amount bps) 10000
