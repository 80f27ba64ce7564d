-- ===== src/Stocks/Escrow.antt =====
-- The handlers of companies leave the escrow alone.
use mineverse.Prelude.{ℕ, String, Option, List, ◌≡◌, arith, ok, >>=-eq-ok}
use mineverse.Records.{State, Context, Receipt}
use mineverse.Ledger.{checked_add}
use mineverse.Ledger.Supply.{credit_native-MovesCoin, debit_native-MovesCoin}
use mineverse.Stocks.{
  require_company, create_company, buy_shares, sell_shares, transfer_shares, company_payout,
}
use mineverse.Stocks.{pay_dividend}
use mineverse.Stocks.Dividends.{pay_holders-MovesCoin}
use mineverse.Ledger.{minus}
use mineverse.Bank.Escrow.{KeepsEscrow}

module _ (from : String) (s : State) {t : State} where
  pub create_company-Escrow :
      (symbol name : String) (description : Option String) (total_shares liquidity : ℕ)
      (server_id : Option String) (ctx : Context)
      → create_company symbol name description total_shares liquidity server_id ctx from s ≡ ok t
      → KeepsEscrow s t
  unfolding create_company
  create_company-Escrow symbol name description total_shares liquidity server_id ctx h =
      let (u1, g1, h1) = >>=-eq-ok _ _ h in
      let (u2, g2, h2) = >>=-eq-ok _ _ h1 in
      let (u3, g3, h3) = >>=-eq-ok _ _ h2 in
      let (u4, g4, h4) = >>=-eq-ok _ _ h3 in
      let (s1, e1, h5) = >>=-eq-ok _ _ h4 in
      let (co, e2, h6) = >>=-eq-ok _ _ h5 in ground (arith, debit_native-MovesCoin _ _ _ e1)

  pub transfer_shares-Escrow :
      (symbol to : String) (amount : ℕ)
      → transfer_shares symbol to amount from s ≡ ok t
      → KeepsEscrow s t
  unfolding transfer_shares require_company
  transfer_shares-Escrow symbol to amount h =
      let (u1, g1, h1) = >>=-eq-ok _ _ h in
      let (co, g2, h2) = >>=-eq-ok _ _ h1 in
      let (given, e1, h3) = >>=-eq-ok _ _ h2 in
      let (taken, e2, h4) = >>=-eq-ok _ _ h3 in ground arith

module _ (hash from : String) (s : State) {t : State} {rs : List Receipt} (symbol : String) where
  pub buy_shares-Escrow :
      (amount_in min_out : ℕ)
      → buy_shares symbol amount_in min_out hash from s ≡ ok (t, rs)
      → KeepsEscrow s t
  unfolding buy_shares require_company checked_add
  buy_shares-Escrow amount_in min_out h =
      let (co, g1, h1) = >>=-eq-ok _ _ h in
      let (out, g2, h2) = >>=-eq-ok _ _ h1 in
      let (u3, g3, h3) = >>=-eq-ok _ _ h2 in
      let (s1, e1, h4) = >>=-eq-ok _ _ h3 in
      let (r, g4, h5) = >>=-eq-ok _ _ h4 in
      let (tr, g5, h6) = >>=-eq-ok _ _ h5 in
      let (ra, g6, h7) = >>=-eq-ok _ _ h6 in
      let (bought, e2, h8) = >>=-eq-ok _ _ h7 in ground (arith, debit_native-MovesCoin _ _ _ e1)

  pub sell_shares-Escrow :
      (amount_in min_out : ℕ)
      → sell_shares symbol amount_in min_out hash from s ≡ ok (t, rs)
      → KeepsEscrow s t
  unfolding sell_shares require_company
  sell_shares-Escrow amount_in min_out h =
      let (co, g1, h1) = >>=-eq-ok _ _ h in
      let (out, g2, h2) = >>=-eq-ok _ _ h1 in
      let (u3, g3, h3) = >>=-eq-ok _ _ h2 in
      let (sold, e1, h4) = >>=-eq-ok _ _ h3 in
      let (r, g4, h5) = >>=-eq-ok _ _ h4 in
      let (s1, e2, h6) = >>=-eq-ok _ _ h5 in ground (arith, credit_native-MovesCoin _ _ _ e2)

  pub company_payout-Escrow :
      (to : String) (amount : ℕ) (memo : Option String)
      → company_payout symbol to amount memo hash from s ≡ ok (t, rs)
      → KeepsEscrow s t
  unfolding company_payout require_company
  company_payout-Escrow to amount memo h =
      let (co, g1, h1) = >>=-eq-ok _ _ h in
      let (u2, g2, h2) = >>=-eq-ok _ _ h1 in
      let (u3, g3, h3) = >>=-eq-ok _ _ h2 in
      let (s1, e1, h4) = >>=-eq-ok _ _ h3 in ground (arith, credit_native-MovesCoin _ _ _ e1)

pub pay_dividend-Escrow :
    (symbol : String) (amount : ℕ) (hash from : String) (s : State) {t : State} {rs : List Receipt}
    → pay_dividend symbol amount hash from s ≡ ok (t, rs)
    → KeepsEscrow s t
unfolding pay_dividend require_company minus checked_add
pay_dividend-Escrow symbol amount hash from s h =
    let (co, g1, h1) = >>=-eq-ok _ _ h in
    let (u2, g2, h2) = >>=-eq-ok _ _ h1 in
    let (u3, g3, h3) = >>=-eq-ok _ _ h2 in
    let (u4, g4, h4) = >>=-eq-ok _ _ h3 in
    let (r, e1, h5) = >>=-eq-ok _ _ h4 in
    let (left, g6, h6) = >>=-eq-ok _ _ h5 in
    let (paid, g7, h7) = >>=-eq-ok _ _ h6 in ground (arith, pay_holders-MovesCoin _ _ _ _ 0 s e1)
