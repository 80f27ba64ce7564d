-- ===== src/Stocks/Supply.antt =====
-- Stock is paid for in coin that the pool and the company's treasury take in.
use mineverse.Prelude.{ℕ, ◌-◌, ◌<◌, String, Option, List, ◌≡◌, arith, ok, ◌>>=◌, >>=-eq-ok}
use mineverse.Config.{company_treasury_bps}
use mineverse.Dict
use mineverse.Dict.{Dict}
use mineverse.Records.{Company, State, Context, Receipt}
use mineverse.Ledger.{amount_out, checked_add}
use mineverse.Ledger.Fees.{fee_of-le}
use mineverse.Ledger.Supply.{coin_of_company, credit_native-MovesCoin, debit_native-MovesCoin}
use mineverse.Bank.Supply.{KeepsSupply}
use mineverse.Stocks.{
  credit_shares, debit_shares, require_company, create_company, buy_shares, sell_shares,
  transfer_shares, company_payout,
}

-- A trade gives out less than the pool holds.
pub amount_out-lt :
    (amount_in reserve_in reserve_out : ℕ) {out : ℕ}
    → amount_out amount_in reserve_in reserve_out ≡ ok out
    → out < reserve_out
unfolding amount_out ◌>>=◌
amount_out-lt amount_in reserve_in reserve_out h = ground arith

module _ (address : String) (amount : ℕ) (co : Company) {co' : Company} where
  coin-credit_shares :
      credit_shares address amount co ≡ ok co'
      → (co'.reserve_native ≡ co.reserve_native) × (co'.treasury ≡ co.treasury)
  unfolding credit_shares ◌>>=◌
  coin-credit_shares h = ground arith

  coin-debit_shares :
      debit_shares address amount co ≡ ok co'
      → (co'.reserve_native ≡ co.reserve_native) × (co'.treasury ≡ co.treasury)
  unfolding debit_shares ◌>>=◌
  coin-debit_shares h = ground arith

module _ (from : String) (s : State) {t : State} where
  pub create_company-Moves :
      (symbol name : String) (description : Option String) (total_shares liquidity : ℕ)
      (server_id : Option String) (ctx : Context)
      → create_company symbol name description total_shares liquidity server_id ctx from s ≡ ok t
      → KeepsSupply s t
  unfolding create_company
  create_company-Moves symbol name description total_shares liquidity server_id ctx h =
      let (u1, g1, h1) = >>=-eq-ok _ _ h in
      let (u2, g2, h2) = >>=-eq-ok _ _ h1 in
      let (u3, g3, h3) = >>=-eq-ok _ _ h2 in
      let (u4, g4, h4) = >>=-eq-ok _ _ h3 in
      let (s1, e1, h5) = >>=-eq-ok _ _ h4 in
      let (co, e2, h6) = >>=-eq-ok _ _ h5 in
      ground (
        arith,
        debit_native-MovesCoin _ _ _ e1,
        coin-credit_shares _ _ _ e2,
        Dict.total-put coin_of_company s1.companies symbol co,
      )

  pub transfer_shares-Moves :
      (symbol to : String) (amount : ℕ)
      → transfer_shares symbol to amount from s ≡ ok t
      → KeepsSupply s t
  unfolding transfer_shares require_company
  transfer_shares-Moves symbol to amount h =
      let (u1, g1, h1) = >>=-eq-ok _ _ h in
      let (co, g2, h2) = >>=-eq-ok _ _ h1 in
      let (given, e1, h3) = >>=-eq-ok _ _ h2 in
      let (taken, e2, h4) = >>=-eq-ok _ _ h3 in
      ground (
        arith,
        coin-debit_shares _ _ _ e1,
        coin-credit_shares _ _ _ e2,
        Dict.total-put coin_of_company s.companies symbol taken,
      )

module _ (hash from : String) (s : State) {t : State} {rs : List Receipt} (symbol : String) where
  pub buy_shares-Moves :
      (amount_in min_out : ℕ)
      → buy_shares symbol amount_in min_out hash from s ≡ ok (t, rs)
      → KeepsSupply s t
  unfolding buy_shares require_company checked_add
  buy_shares-Moves amount_in min_out h =
      let (co, g1, h1) = >>=-eq-ok _ _ h in
      let (out, g2, h2) = >>=-eq-ok _ _ h1 in
      let (u3, g3, h3) = >>=-eq-ok _ _ h2 in
      let (s1, e1, h4) = >>=-eq-ok _ _ h3 in
      let (r, g4, h5) = >>=-eq-ok _ _ h4 in
      let (tr, g5, h6) = >>=-eq-ok _ _ h5 in
      let (ra, g6, h7) = >>=-eq-ok _ _ h6 in
      let (bought, e2, h8) = >>=-eq-ok _ _ h7 in
      ground (
        arith,
        fee_of-le amount_in company_treasury_bps,
        debit_native-MovesCoin _ _ _ e1,
        coin-credit_shares _ _ _ e2,
        Dict.total-put coin_of_company s1.companies symbol bought,
      )

  pub sell_shares-Moves :
      (amount_in min_out : ℕ)
      → sell_shares symbol amount_in min_out hash from s ≡ ok (t, rs)
      → KeepsSupply s t
  unfolding sell_shares require_company
  sell_shares-Moves amount_in min_out h =
      let (co, g1, h1) = >>=-eq-ok _ _ h in
      let (out, g2, h2) = >>=-eq-ok _ _ h1 in
      let (u3, g3, h3) = >>=-eq-ok _ _ h2 in
      let (sold, e1, h4) = >>=-eq-ok _ _ h3 in
      let (r, g4, h5) = >>=-eq-ok _ _ h4 in
      let (s1, e2, h6) = >>=-eq-ok _ _ h5 in
      let settled = record sold {
        reserve_shares = r;
        reserve_native = sold.reserve_native - out;
      } in
      ground (
        arith,
        amount_out-lt _ _ _ g2,
        coin-debit_shares _ _ _ e1,
        credit_native-MovesCoin _ _ _ e2,
        Dict.total-put coin_of_company s.companies symbol settled,
      )

  pub company_payout-Moves :
      (to : String) (amount : ℕ) (memo : Option String)
      → company_payout symbol to amount memo hash from s ≡ ok (t, rs)
      → KeepsSupply s t
  unfolding company_payout require_company
  company_payout-Moves to amount memo h =
      let (co, g1, h1) = >>=-eq-ok _ _ h in
      let (u2, g2, h2) = >>=-eq-ok _ _ h1 in
      let (u3, g3, h3) = >>=-eq-ok _ _ h2 in
      let (s1, e1, h4) = >>=-eq-ok _ _ h3 in
      let spent = record co { treasury = co.treasury - amount } in
      ground (
        arith,
        credit_native-MovesCoin _ _ _ e1,
        Dict.total-put coin_of_company s.companies symbol spent,
      )
