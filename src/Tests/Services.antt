-- ===== src/Tests/Services.antt =====
-- Requests to a host.
use mineverse.Prelude.{◌≤◌, true, false, some, none, List, [], ◌∷◌, ◌≡◌, ◌⊎◌, refl, ok, err, ◌>>=◌}
use mineverse.Dict
use mineverse.Records.{State, Currency, Company, Receipt, empty_state}
use mineverse.Ledger.{
  Call, amount_out, in_after_fee, checked_add, get_account, debit_native, credit_token, held,
  fee_of,
}
use mineverse.Prelude.Number.{floor_div, times, round_double, round_div, scale}
use mineverse.State.Core.{buy}
use mineverse.Stocks.{buy_shares, require_company, credit_shares}
use mineverse.Api.{buying, Quote, Request, Command, Host, ApiEnv}
use mineverse.Api.Gate.{IsAllowed, serve-guarded, IsSameLedger, serve-IsSameLedger}
use mineverse.Api.Writes.{serve}
use mineverse.Tests.Networks.{net, node}
use mineverse.Tests.Wallets.{kl}
use mineverse.Api.Quotes.{currency_quote, shares_quote}
use mineverse.Api.Priced.{IsSettled, IsSettledIn}
use mineverse.Api.Quoted.{
  trade, traded, trade_shares, traded_shares, currency_quote-trade, shares_quote-trade,
}
use mineverse.Tests.Samples.{start, alice, digest, now, pay_bob}

abbrev gold : Currency
gold = record {
  symbol = "GOLD";
  name = "Gold";
  owner = alice;
  total_supply = 100000;
  reserve_native = 50000;
  reserve_token = 80000;
  created_at = 0;
  created_at_height = 1;
}

abbrev mill : Company
mill = record {
  symbol = "MILL";
  name = "Mill";
  description = "";
  ceo = alice;
  server_id = none;
  total_shares = 10000;
  reserve_native = 5000;
  reserve_shares = 8000;
  treasury = 0;
  treasury_raised = 0;
  dividends_paid = 0;
  holders = Dict.empty;
  holder_count = 0;
  created_at = 0;
  created_at_height = 1;
}

abbrev markets : State
markets = record start {
  currencies = Dict.put Dict.empty "GOLD" gold;
  companies = Dict.put Dict.empty "MILL" mill;
}

abbrev result_of : Call (State × List Receipt) → State × List Receipt
result_of (ok r) = r
result_of (err e) = (empty_state, [])

abbrev bought : State × List Receipt
bought = result_of (trade buying "GOLD" 500 1 digest alice markets)

purchase : trade buying "GOLD" 500 1 digest alice markets ≡ ok (bought.0, bought.1)
unfolding Dict.empty Dict.get Dict.put trade buy amount_out in_after_fee debit_native credit_token
    get_account checked_add held ◌>>=◌
purchase = refl

listed : Dict.get markets.currencies "GOLD" ≡ some gold
unfolding Dict.empty Dict.get Dict.put
listed = refl

currency_quote-trade_example :
    (q : Quote) × (currency_quote gold buying 500 ≡ ok q)
    × (1 ≤ q.amount_out)
    × (bought.1 ≡ traded buying digest "GOLD" 500 q.amount_out ∷ [])
    × IsSettled buying "GOLD" alice 500 q.amount_out markets bought.0
currency_quote-trade_example =
    currency_quote-trade "GOLD" 500 1 digest alice markets buying gold listed purchase

abbrev bought_shares : State × List Receipt
bought_shares = result_of (trade_shares buying "MILL" 500 1 digest alice markets)

purchase_of_shares :
    trade_shares buying "MILL" 500 1 digest alice markets ≡ ok (bought_shares.0, bought_shares.1)
unfolding Dict.empty Dict.get Dict.put trade_shares buy_shares require_company credit_shares
    amount_out in_after_fee debit_native get_account checked_add held ◌>>=◌ fee_of floor_div times
    round_double round_div scale
purchase_of_shares = refl

listed_company : Dict.get markets.companies "MILL" ≡ some mill
unfolding Dict.empty Dict.get Dict.put
listed_company = refl

shares_quote-trade_example :
    (q : Quote) × (shares_quote mill buying 500 ≡ ok q)
    × (1 ≤ q.amount_out)
    × (bought_shares.1 ≡ traded_shares buying digest "MILL" 500 q.amount_out q.to_treasury ∷ [])
    × ((after : Company) × (Dict.get bought_shares.0.companies "MILL" ≡ some after)
        × IsSettledIn buying alice 500 q.amount_out q.to_treasury markets bought_shares.0 mill
            after)
shares_quote-trade_example =
    shares_quote-trade "MILL" 500 1 digest alice markets buying mill listed_company
      purchase_of_shares

abbrev api : ApiEnv
api = record { net = net; kl = kl; wordlist = []; locale_leb = λ a b. true }

abbrev host : Host
host = record {
  node = node;
  has_p2p = true;
  api_token = some "secret";
  allow_key_generation = false;
  target = some "chain.json";
  file = none;
}

abbrev sent : Request
sent = Request.post (Command.submit pay_bob)

serve-guarded_example :
    ((serve api now none sent host).1 ≡ host)
    ⊎ ((command : Command) × (sent ≡ Request.post command) × IsAllowed (some "secret") none)
serve-guarded_example = serve-guarded api now none sent host

serve-IsSameLedger_example : IsSameLedger host (serve api now (some "secret") sent host).1
serve-IsSameLedger_example = serve-IsSameLedger api now (some "secret") sent host
