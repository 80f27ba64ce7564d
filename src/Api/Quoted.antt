-- ===== src/Api/Quoted.antt =====
-- Dry runs of trades against the trades (src/api/server.js, src/core/state.js, src/core/stocks.js).
use mineverse.Prelude.{ℕ, ◌≤◌, String, some, List, [], ◌∷◌, ◌≡◌, refl, ok}
use mineverse.Dict
use mineverse.Config.{company_treasury_bps}
use mineverse.Records.{
  State, Currency, Company, Receipt, swap_buy, swap_sell, share_purchase, share_sale,
}
use mineverse.Ledger.{Call, fee_of}
use mineverse.State.Core.{buy, sell}
use mineverse.Stocks.{buy_shares, sell_shares}
use mineverse.Api.{Side, buying, selling, Quote}
use mineverse.Api.Quotes.{currency_quote, shares_quote}
use mineverse.Api.Priced.{
  IsSettled, IsSettledIn, buy-priced, sell-priced, buy_shares-priced, sell_shares-priced,
}

-- A trade of a currency on a side, as the state machine makes it.
unfoldable pub trade : Side → String → ℕ → ℕ → String → String → State → Call (State × List Receipt)
trade buying symbol amount_in min_out hash from s = buy symbol amount_in min_out hash from s
trade selling symbol amount_in min_out hash from s = sell symbol amount_in min_out hash from s

abbrev pub traded : Side → (hash symbol : String) (amount_in out : ℕ) → Receipt
traded buying hash symbol amount_in out = swap_buy hash symbol amount_in out
traded selling hash symbol amount_in out = swap_sell hash symbol amount_in out

unfoldable pub trade_shares :
    Side → String → ℕ → ℕ → String → String → State → Call (State × List Receipt)
trade_shares buying symbol amount_in min_out hash from s =
    buy_shares symbol amount_in min_out hash from s
trade_shares selling symbol amount_in min_out hash from s =
    sell_shares symbol amount_in min_out hash from s

abbrev pub traded_shares : Side → (hash symbol : String) (amount_in out to_treasury : ℕ) → Receipt
traded_shares buying hash symbol amount_in out to_treasury =
    share_purchase hash symbol amount_in out to_treasury
traded_shares selling hash symbol amount_in out to_treasury = share_sale hash symbol amount_in out

abbrev quoted : String → Side → ℕ → ℕ → ℕ → Quote
quoted symbol side amount_in out to_treasury = record {
  symbol = symbol;
  side = side;
  amount_in = amount_in;
  amount_out = out;
  to_treasury = to_treasury;
}

module _ (symbol : String) (amount_in min_out : ℕ) (hash from : String) (s : State) where
  -- A trade of a currency that goes through in a state gives what is quoted in that state, and no
  -- less than the trade asks for: a buyer pays the input from the balance and has the quoted output
  -- more in tokens, a seller gives the input in tokens and has the quoted output more in the balance,
  -- and the receipt says so.
  pub currency_quote-trade :
      (side : Side) (cur : Currency) {t : State} {receipts : List Receipt}
      → Dict.get s.currencies symbol ≡ some cur
      → trade side symbol amount_in min_out hash from s ≡ ok (t, receipts)
      → (q : Quote) × (currency_quote cur side amount_in ≡ ok q)
        × (min_out ≤ q.amount_out)
        × (receipts ≡ traded side hash symbol amount_in q.amount_out ∷ [])
        × IsSettled side symbol from amount_in q.amount_out s t
  unfolding trade currency_quote
  currency_quote-trade buying cur e h =
      let (out, priced, least, made, paid) =
        buy-priced symbol amount_in min_out hash from s cur e h in
      (quoted cur.symbol buying amount_in out 0, rw priced refl, least, made, paid)
  currency_quote-trade selling cur e h =
      let (out, priced, least, made, paid) =
        sell-priced symbol amount_in min_out hash from s cur e h in
      (quoted cur.symbol selling amount_in out 0, rw priced refl, least, made, paid)

  -- A trade of shares that goes through in a state gives what is quoted in that state, and no less
  -- than the trade asks for: a buyer pays the input from the balance, holds the quoted output more in
  -- shares, and the treasury of the company grows by the part that the quote says; a seller gives the
  -- input in shares, has the quoted output more in the balance, and the treasury stays. The receipt
  -- says so.
  pub shares_quote-trade :
      (side : Side) (company : Company) {t : State} {receipts : List Receipt}
      → Dict.get s.companies symbol ≡ some company
      → trade_shares side symbol amount_in min_out hash from s ≡ ok (t, receipts)
      → (q : Quote) × (shares_quote company side amount_in ≡ ok q)
        × (min_out ≤ q.amount_out)
        × (receipts ≡ traded_shares side hash symbol amount_in q.amount_out q.to_treasury ∷ [])
        × ((after : Company) × (Dict.get t.companies symbol ≡ some after)
            × IsSettledIn side from amount_in q.amount_out q.to_treasury s t company after)
  unfolding trade_shares shares_quote
  shares_quote-trade buying company e h =
      let (out, priced, least, made, paid) =
        buy_shares-priced symbol amount_in min_out hash from s company e h in
      (
        quoted company.symbol buying amount_in out (fee_of amount_in company_treasury_bps),
        rw priced refl,
        least,
        made,
        paid,
      )
  shares_quote-trade selling company e h =
      let (out, priced, least, made, paid) =
        sell_shares-priced symbol amount_in min_out hash from s company e h in
      (quoted company.symbol selling amount_in out 0, rw priced refl, least, made, paid)
