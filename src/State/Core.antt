-- ===== src/State/Core.antt =====
-- The core handlers of src/core/state.js: the native ledger, currencies, governance, identity.
use mineverse.Prelude.{
  ℕ, ◌+◌, ◌-◌, String, true, Option, none, some, List, [], ◌∷◌, not, str_eq, ltb, leb,
  if◌then◌else◌, ok, ◌>>=◌, ◌>>◌, fail_if, require,
}
use mineverse.Prelude.Number.{times, floor_div}
use mineverse.Config.{native, creator_supply_bps}
use mineverse.Dict
use mineverse.Records.{
  Currency, Choice, yes_vote, no_vote, Vote, State, Context, Receipt, swap_buy, swap_sell,
  transfer_to_self, unknown_currency, currency_already_exists, symbol_is_a_company,
  supply_too_small, slippage, vote_already_exists, unknown_server, unknown_vote, vote_has_closed,
  already_voted, uuid_already_registered, address_already_bound,
}
use mineverse.Ledger.{
  Call, checked_add, get_account, set_account, credit_native, debit_native, credit_token,
  debit_token, amount_out,
}
use mineverse.Bank.Contracts.{is_some}
use mineverse.Market.{is_another}
use mineverse.Stocks.{is_unknown_server, or_null}

abbrev pub set_currency : String → Currency → State → State
set_currency symbol cur s = record s { currencies = Dict.put s.currencies symbol cur }

abbrev pub set_vote : String → Vote → State → State
set_vote id v s = record s { votes = Dict.put s.votes id v }

unfoldable pub transfer : String → ℕ → String → String → State → Call State
transfer to amount symbol from s = do
  fail_if (str_eq to from) transfer_to_self
  if str_eq symbol native
      then (do s1 ← debit_native from amount s; credit_native to amount s1)
      else (do
        fail_if (not (is_some (Dict.get s.currencies symbol))) unknown_currency
        s1 ← debit_token from symbol amount s
        credit_token to symbol amount s1)

-- What `CREATE_CURRENCY` puts into the state.
abbrev pub new_currency : String → String → ℕ → ℕ → ℕ → Context → String → Currency
new_currency symbol name total_supply creator_share liquidity ctx from = record {
  symbol = symbol;
  name = name;
  owner = from;
  total_supply = total_supply;
  reserve_native = liquidity;
  reserve_token = total_supply - creator_share;
  created_at = ctx.timestamp;
  created_at_height = ctx.height;
}

unfoldable pub create_currency : String → String → ℕ → ℕ → Context → String → State → Call State
create_currency symbol name total_supply liquidity ctx from s = do
  fail_if (is_some (Dict.get s.currencies symbol)) currency_already_exists
  fail_if (is_some (Dict.get s.companies symbol)) symbol_is_a_company
  let creator_share = floor_div (times total_supply creator_supply_bps) 10000
  fail_if (leb total_supply creator_share) supply_too_small
  s1 ← debit_native from liquidity s
  let cur = new_currency symbol name total_supply creator_share liquidity ctx from
  let s2 = set_currency symbol cur s1
  if ltb 0 creator_share then credit_token from symbol creator_share s2 else ok s2

unfoldable pub buy : String → ℕ → ℕ → String → String → State → Call (State × List Receipt)
buy symbol amount_in min_out hash from s = do
  cur ← require (Dict.get s.currencies symbol) unknown_currency
  out ← amount_out amount_in cur.reserve_native cur.reserve_token
  fail_if (ltb out min_out) slippage
  s1 ← debit_native from amount_in s
  reserve_native ← checked_add cur.reserve_native amount_in
  let traded = record cur {
    reserve_native = reserve_native;
    reserve_token = cur.reserve_token - out;
  }
  s2 ← credit_token from symbol out (set_currency symbol traded s1)
  ok (s2, swap_buy hash symbol amount_in out ∷ [])

unfoldable pub sell : String → ℕ → ℕ → String → String → State → Call (State × List Receipt)
sell symbol amount_in min_out hash from s = do
  cur ← require (Dict.get s.currencies symbol) unknown_currency
  out ← amount_out amount_in cur.reserve_token cur.reserve_native
  fail_if (ltb out min_out) slippage
  s1 ← debit_token from symbol amount_in s
  reserve_token ← checked_add cur.reserve_token amount_in
  let traded = record cur {
    reserve_token = reserve_token;
    reserve_native = cur.reserve_native - out;
  }
  s2 ← credit_native from out (set_currency symbol traded s1)
  ok (s2, swap_sell hash symbol amount_in out ∷ [])

unfoldable pub create_vote :
    String → ℕ → Option String → String → Context → String → State → Call State
create_vote statement duration_ms server_id hash ctx from s = do
  fail_if (is_some (Dict.get s.votes hash)) vote_already_exists
  fail_if (is_unknown_server s server_id) unknown_server
  ok (
      set_vote hash
        (record {
          id = hash;
          statement = statement;
          creator = from;
          server_id = or_null server_id;
          yes_count = 0;
          no_count = 0;
          voters = Dict.empty;
          created_at = ctx.timestamp;
          end_time = ctx.timestamp + duration_ms;
          running = true;
          result = none;
        })
        s)

-- The counts after one more vote.
abbrev pub count_vote : Choice → Vote → Vote
count_vote yes_vote v = record v { yes_count = v.yes_count + 1 }
count_vote no_vote v = record v { no_count = v.no_count + 1 }

unfoldable pub cast_vote : String → Choice → String → State → Call State
cast_vote vote_id choice from s = do
  v ← require (Dict.get s.votes vote_id) unknown_vote
  fail_if (not v.running) vote_has_closed
  fail_if (is_some (Dict.get v.voters from)) already_voted
  ok (set_vote vote_id (count_vote choice (record v { voters = Dict.put v.voters from choice })) s)

unfoldable pub register_uuid : String → String → State → Call State
register_uuid uuid from s = do
  let acct = get_account s from
  fail_if (is_another (Dict.get s.uuids uuid) from) uuid_already_registered
  fail_if (is_another acct.uuid uuid) address_already_bound
  ok (
      set_account (record s { uuids = Dict.put s.uuids uuid from }) from
        (record acct { uuid = some uuid }))
