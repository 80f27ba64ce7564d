-- ===== src/Stocks.antt =====
-- src/core/stocks.js: companies and their stock.
mod Shares
unfoldable pub use Shares.*
pub mod Dividends
pub mod Escrow
pub mod Held
pub mod Nonces
pub mod Supply
use mineverse.Prelude.{
  ℕ, ◌+◌, ◌-◌, String, true, false, Bool, Option, none, some, List, [], ◌∷◌, not, str_eq, ltb, leb,
  ◌==◌, if◌then◌else◌, ok, err, ◌>>=◌, ◌>>◌, fail_if, require,
}
use mineverse.Prelude.Number.{times, floor_div, round_double}
use mineverse.Config.{founder_share_bps, company_treasury_bps}
use mineverse.Dict
use mineverse.Dict.{Dict}
use mineverse.Records.{
  Company, State, Context, Receipt, share_purchase, share_sale, payout, dividend, unknown_company,
  company_already_exists, symbol_is_a_currency, unknown_server, share_count_too_small,
  transfer_to_self, slippage, not_the_ceo, insufficient_treasury, no_shares_outstanding, type_error,
}
use mineverse.Ledger.{Call, checked_add, minus, credit_native, debit_native, amount_out, fee_of}
use mineverse.Bank.Contracts.{is_some, text_or_empty}
use mineverse.Land.{has_server}

abbrev pub set_company : String → Company → State → State
set_company symbol co s = record s { companies = Dict.put s.companies symbol co }

unfoldable pub require_company : State → String → Call Company
require_company s symbol = require (Dict.get s.companies symbol) unknown_company

-- `serverId !== null && serverId !== undefined && !state.servers[serverId]`
abbrev pub is_unknown_server : State → Option String → Bool
is_unknown_server s none = false
is_unknown_server s (some id) = not (has_server s id)

-- `serverId || null`
abbrev pub or_null : Option String → Option String
or_null none = none
or_null (some id) = if str_eq id "" then none else some id

unfoldable pub create_company :
    String → String → Option String → ℕ → ℕ → Option String → Context → String → State → Call State
create_company symbol name description total_shares liquidity server_id ctx from s = do
  fail_if (is_some (Dict.get s.companies symbol)) company_already_exists
  fail_if (is_some (Dict.get s.currencies symbol)) symbol_is_a_currency
  fail_if (is_unknown_server s server_id) unknown_server
  let founder_shares = floor_div (times total_shares founder_share_bps) 10000
  fail_if (leb total_shares founder_shares) share_count_too_small
  s1 ← debit_native from liquidity s
  company ← credit_shares from founder_shares (record {
    symbol = symbol;
    name = name;
    description = text_or_empty description;
    ceo = from;
    server_id = or_null server_id;
    total_shares = total_shares;
    reserve_native = liquidity;
    reserve_shares = total_shares - founder_shares;
    treasury = 0;
    treasury_raised = 0;
    dividends_paid = 0;
    holders = Dict.empty;
    holder_count = 0;
    created_at = ctx.timestamp;
    created_at_height = ctx.height;
  })
  ok (set_company symbol company s1)

unfoldable pub buy_shares : String → ℕ → ℕ → String → String → State → Call (State × List Receipt)
buy_shares symbol amount_in min_out hash from s = do
  company ← require_company s symbol
  let to_treasury = fee_of amount_in company_treasury_bps
  let to_pool = amount_in - to_treasury
  out ← amount_out to_pool company.reserve_native company.reserve_shares
  fail_if (ltb out min_out) slippage
  s1 ← debit_native from amount_in s
  reserve_native ← checked_add company.reserve_native to_pool
  treasury ← checked_add company.treasury to_treasury
  treasury_raised ← checked_add company.treasury_raised to_treasury
  bought ← credit_shares from out (record company {
    reserve_native = reserve_native;
    reserve_shares = company.reserve_shares - out;
    treasury = treasury;
    treasury_raised = treasury_raised;
  })
  ok (set_company symbol bought s1, share_purchase hash symbol amount_in out to_treasury ∷ [])

unfoldable pub sell_shares : String → ℕ → ℕ → String → String → State → Call (State × List Receipt)
sell_shares symbol amount_in min_out hash from s = do
  company ← require_company s symbol
  out ← amount_out amount_in company.reserve_shares company.reserve_native
  fail_if (ltb out min_out) slippage
  sold ← debit_shares from amount_in company
  reserve_shares ← checked_add sold.reserve_shares amount_in
  let settled = record sold {
    reserve_shares = reserve_shares;
    reserve_native = sold.reserve_native - out;
  }
  s1 ← credit_native from out (set_company symbol settled s)
  ok (s1, share_sale hash symbol amount_in out ∷ [])

unfoldable pub transfer_shares : String → String → ℕ → String → State → Call State
transfer_shares symbol to amount from s = do
  fail_if (str_eq to from) transfer_to_self
  company ← require_company s symbol
  given ← debit_shares from amount company
  taken ← credit_shares to amount given
  ok (set_company symbol taken s)

unfoldable pub company_payout :
    String → String → ℕ → Option String → String → String → State → Call (State × List Receipt)
company_payout symbol to amount memo hash from s = do
  company ← require_company s symbol
  fail_if (not (str_eq company.ceo from)) not_the_ceo
  fail_if (ltb company.treasury amount) insufficient_treasury
  let spent = record company { treasury = company.treasury - amount }
  s1 ← credit_native to amount (set_company symbol spent s)
  ok (s1, payout hash symbol to amount (text_or_empty memo) ∷ [])

-- One holder's part of a dividend; the product and the quotient are doubles.
unfoldable pub cut_of : ℕ → ℕ → ℕ → ℕ
cut_of amount outstanding shares = floor_div (times amount shares) outstanding

-- The loop over the holders: what it has distributed, and the state.
unfoldable pub pay_holders : ℕ → ℕ → Dict ℕ → List String → ℕ → State → Call (ℕ × State)
unfolding cut_of
pay_holders amount outstanding holders [] distributed s = ok (distributed, s)
pay_holders amount outstanding holders (address ∷ rest) distributed s = do
  shares ← require (Dict.get holders address) type_error
  let cut = cut_of amount outstanding shares
  paid ← if cut == 0 then ok s else credit_native address cut s
  pay_holders amount outstanding holders rest (round_double (distributed + cut)) paid

unfoldable pub pay_dividend : String → ℕ → String → String → State → Call (State × List Receipt)
pay_dividend symbol amount hash from s = do
  company ← require_company s symbol
  fail_if (not (str_eq company.ceo from)) not_the_ceo
  fail_if (ltb company.treasury amount) insufficient_treasury
  fail_if (leb company.total_shares company.reserve_shares) no_shares_outstanding
  let holders = company.holders
  (distributed, s1) ←
      pay_holders amount (outstanding_shares company) holders (Dict.sort_keys (Dict.keys holders)) 0
        s
  treasury ← minus company.treasury distributed
  dividends_paid ← checked_add company.dividends_paid distributed
  ok (
    set_company symbol (record company { treasury = treasury; dividends_paid = dividends_paid }) s1,
    dividend hash symbol amount distributed company.holder_count ∷ [],
  )
