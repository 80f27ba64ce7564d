-- ===== src/Api/Quotes.antt =====
-- The dry runs of trades in src/api/server.js.
use mineverse.Prelude.{ℕ, ◌-◌, String, Option, none, some, ok, err}
use mineverse.Prelude.Int.{ℤ}
use mineverse.Config.{company_treasury_bps}
use mineverse.Dict
use mineverse.Records.{State, Currency, Company}
use mineverse.Ledger.{Call, amount_out, fee_of}
use mineverse.Api.{
  Side, buying, selling, Response, answer, bad, not_found, bad_amount, no_trade, quote_of, Quote,
}
use mineverse.Api.Lists.{positive}

abbrev respond : Call Quote → Response
respond (ok quote) = answer (quote_of quote)
respond (err e) = bad 400 (no_trade e)

abbrev with_output : String → Side → ℕ → ℕ → Call ℕ → Call Quote
with_output symbol side amount_in to_treasury (ok out) = ok (record {
  symbol = symbol;
  side = side;
  amount_in = amount_in;
  amount_out = out;
  to_treasury = to_treasury;
})
with_output symbol side amount_in to_treasury (err e) = err e

-- A trade against the pool of a currency.
unfoldable pub currency_quote : Currency → Side → ℕ → Call Quote
currency_quote cur buying amount_in =
    with_output cur.symbol buying amount_in 0
      (amount_out amount_in cur.reserve_native cur.reserve_token)
currency_quote cur selling amount_in =
    with_output cur.symbol selling amount_in 0
      (amount_out amount_in cur.reserve_token cur.reserve_native)

-- A trade in a company's shares; a buy is quoted net of the part that goes to the treasury.
unfoldable pub shares_quote : Company → Side → ℕ → Call Quote
shares_quote company selling amount_in =
    with_output company.symbol selling amount_in 0
      (amount_out amount_in company.reserve_shares company.reserve_native)
shares_quote company buying amount_in =
    let to_treasury = fee_of amount_in company_treasury_bps in
    with_output company.symbol buying amount_in to_treasury
      (amount_out (amount_in - to_treasury) company.reserve_native company.reserve_shares)

-- GET /quote/:symbol
unfoldable pub answer_quote : State → String → Side → Option ℤ → Response
unfolding positive currency_quote
answer_quote s symbol side given = elim (Dict.get s.currencies symbol) [
  | none ↦ bad 404 not_found
  | some cur ↦ elim (positive given) [
    | none ↦ bad 400 bad_amount
    | some amount_in ↦ respond (currency_quote cur side amount_in)
  ]
]

-- GET /company/:symbol/quote
unfoldable pub answer_company_quote : State → String → Side → Option ℤ → Response
unfolding positive shares_quote
answer_company_quote s symbol side given = elim (Dict.get s.companies symbol) [
  | none ↦ bad 404 not_found
  | some company ↦ elim (positive given) [
    | none ↦ bad 400 bad_amount
    | some amount_in ↦ respond (shares_quote company side amount_in)
  ]
]
