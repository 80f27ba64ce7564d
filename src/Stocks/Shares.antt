-- ===== src/Stocks/Shares.antt =====
-- The holder table of a company (src/core/stocks.js).
use mineverse.Prelude.{
  ℕ, ◌+◌, ◌-◌, String, none, some, List, [], ◌∷◌, ltb, leb, ◌==◌, ◌&&◌, if◌then◌else◌, ok, ◌>>=◌,
  ◌>>◌, fail_if,
}
use mineverse.Config.{max_company_holders}
use mineverse.Dict
use mineverse.Records.{Company, State, holder_limit, insufficient_shares}
use mineverse.Ledger.{Call, checked_add, minus, held}

unfoldable pub shares_of : Company → String → ℕ
shares_of co address = held co.holders address

unfoldable pub credit_shares : String → ℕ → Company → Call Company
credit_shares address amount co = if amount == 0 then ok co else (do
  let have = held co.holders address
  let is_new = have == 0
  fail_if (is_new && leb max_company_holders co.holder_count) holder_limit
  shares ← checked_add have amount
  ok (record co {
    holder_count = if is_new then co.holder_count + 1 else co.holder_count;
    holders = Dict.put co.holders address shares;
  }))

unfoldable pub debit_shares : String → ℕ → Company → Call Company
debit_shares address amount co = do
  let have = held co.holders address
  fail_if (ltb have amount) insufficient_shares
  let left = have - amount
  if left == 0
      then (do
        holder_count ← minus co.holder_count 1
        ok (record co { holders = Dict.remove co.holders address; holder_count = holder_count }))
      else ok (record co { holders = Dict.put co.holders address left })

-- What is not in the pool.
unfoldable pub outstanding_shares : Company → ℕ
outstanding_shares co = co.total_shares - co.reserve_shares

unfoldable pub holdings_in : State → String → List String → List (String × ℕ)
holdings_in s address [] = []
holdings_in s address (symbol ∷ symbols) =
    let rest = holdings_in s address symbols in
    elim (Dict.get s.companies symbol) [
      | none ↦ rest
      | some co ↦
          if held co.holders address == 0 then rest else (symbol, held co.holders address) ∷ rest
    ]

-- `shareHoldings`, as the pairs in the order of insertion.
unfoldable pub share_holdings : State → String → List (String × ℕ)
unfolding holdings_in
share_holdings s address = holdings_in s address (Dict.sort_keys (Dict.keys s.companies))
