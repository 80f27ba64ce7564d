-- ===== src/State/Escrow.antt =====
-- The core handlers leave the escrow alone.
use mineverse.Prelude.{
  ℕ, String, Option, List, ◌≡◌, arith, ok, ◌>>=◌, >>=-eq-ok, Bool-cases, inl, inr, str_eq,
}
use mineverse.Config.{native, creator_supply_bps}
use mineverse.Prelude.Number.{times, floor_div}
use mineverse.Records.{Choice, State, Context, Receipt}
use mineverse.Ledger.{checked_add, get_account, set_account}
use mineverse.Ledger.Supply.{
  credit_native-MovesCoin, debit_native-MovesCoin, credit_token-MovesCoin, debit_token-MovesCoin,
}
use mineverse.Ledger.{credit_native, debit_native, credit_token, debit_token}
use mineverse.State.Core.{
  new_currency, set_currency, transfer, create_currency, buy, sell, create_vote, cast_vote,
  register_uuid,
}
use mineverse.Bank.Escrow.{KeepsEscrow}

module _ (from : String) (s : State) {t : State} where
  module _ (to : String) (amount : ℕ) where
    pay_native-Escrow :
        (do s1 ← debit_native from amount s; credit_native to amount s1) ≡ ok t → KeepsEscrow s t
    pay_native-Escrow h =
        let (s1, e1, e2) = >>=-eq-ok _ _ h in
        ground (arith, debit_native-MovesCoin _ _ _ e1, credit_native-MovesCoin _ _ _ e2)

    pay_token-Escrow :
        (symbol : String)
        → (do s1 ← debit_token from symbol amount s; credit_token to symbol amount s1) ≡ ok t
        → KeepsEscrow s t
    pay_token-Escrow symbol h =
        let (s1, e1, e2) = >>=-eq-ok _ _ h in
        ground (arith, debit_token-MovesCoin _ _ _ _ e1, credit_token-MovesCoin _ _ _ _ e2)

    pub transfer-Escrow :
        (symbol : String) → transfer to amount symbol from s ≡ ok t → KeepsEscrow s t
    unfolding transfer
    transfer-Escrow symbol h =
        let (u1, g1, h1) = >>=-eq-ok _ _ h in
        elim (Bool-cases (str_eq symbol native)) [
          | inl coin ↦ pay_native-Escrow (rw coin at h1)
          | inr token ↦
              let (u2, g2, h2) = >>=-eq-ok _ _ (rw token at h1) in pay_token-Escrow symbol h2
        ]

  pub create_currency-Escrow :
      (symbol name : String) (total_supply liquidity : ℕ) (ctx : Context)
      → create_currency symbol name total_supply liquidity ctx from s ≡ ok t
      → KeepsEscrow s t
  unfolding create_currency
  create_currency-Escrow symbol name total_supply liquidity ctx h =
      let (u1, g1, h1) = >>=-eq-ok _ _ h in
      let (u2, g2, h2) = >>=-eq-ok _ _ h1 in
      let (u3, g3, h3) = >>=-eq-ok _ _ h2 in
      let (s1, e1, h4) = >>=-eq-ok _ _ h3 in
      let creator_share = floor_div (times total_supply creator_supply_bps) 10000 in
      let cur = new_currency symbol name total_supply creator_share liquidity ctx from in
      ground (
        arith,
        debit_native-MovesCoin _ _ _ e1,
        credit_token-MovesCoin from creator_share (set_currency symbol cur s1) {t = t} symbol,
      )

  pub create_vote-Escrow :
      (statement : String) (duration_ms : ℕ) (server_id : Option String) (hash : String)
      (ctx : Context)
      → create_vote statement duration_ms server_id hash ctx from s ≡ ok t
      → KeepsEscrow s t
  unfolding create_vote ◌>>=◌
  create_vote-Escrow statement duration_ms server_id hash ctx h = ground arith

  pub cast_vote-Escrow :
      (vote_id : String) (choice : Choice)
      → cast_vote vote_id choice from s ≡ ok t
      → KeepsEscrow s t
  unfolding cast_vote ◌>>=◌
  cast_vote-Escrow vote_id choice h = ground arith

  pub register_uuid-Escrow : (uuid : String) → register_uuid uuid from s ≡ ok t → KeepsEscrow s t
  unfolding register_uuid ◌>>=◌ set_account get_account
  register_uuid-Escrow uuid h = ground arith

module _ (hash from : String) (s : State) {t : State} {rs : List Receipt} (symbol : String)
    (amount_in min_out : ℕ) where
  pub buy-Escrow : buy symbol amount_in min_out hash from s ≡ ok (t, rs) → KeepsEscrow s t
  unfolding buy checked_add
  buy-Escrow h =
      let (cur, g1, h1) = >>=-eq-ok _ _ h in
      let (out, g2, h2) = >>=-eq-ok _ _ h1 in
      let (u3, g3, h3) = >>=-eq-ok _ _ h2 in
      let (s1, e1, h4) = >>=-eq-ok _ _ h3 in
      let (r, g4, h5) = >>=-eq-ok _ _ h4 in
      let (s2, e2, h6) = >>=-eq-ok _ _ h5 in
      ground (arith, debit_native-MovesCoin _ _ _ e1, credit_token-MovesCoin _ _ _ _ e2)

  pub sell-Escrow : sell symbol amount_in min_out hash from s ≡ ok (t, rs) → KeepsEscrow s t
  unfolding sell
  sell-Escrow h =
      let (cur, g1, h1) = >>=-eq-ok _ _ h in
      let (out, g2, h2) = >>=-eq-ok _ _ h1 in
      let (u3, g3, h3) = >>=-eq-ok _ _ h2 in
      let (s1, e1, h4) = >>=-eq-ok _ _ h3 in
      let (r, g4, h5) = >>=-eq-ok _ _ h4 in
      let (s2, e2, h6) = >>=-eq-ok _ _ h5 in
      ground (arith, debit_token-MovesCoin _ _ _ _ e1, credit_native-MovesCoin _ _ _ e2)
