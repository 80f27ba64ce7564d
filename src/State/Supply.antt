-- ===== src/State/Supply.antt =====
-- The supply under the core handlers, a transaction and a block.
use mineverse.Prelude.{
  ℕ, ◌-◌, String, Option, List, ◌≡◌, arith, ok, ◌>>=◌, >>=-eq-ok, Bool-cases, inl, inr, str_eq,
}
use mineverse.Config.{native, creator_supply_bps}
use mineverse.Dict
use mineverse.Prelude.Number.{times, floor_div}
use mineverse.Records.{Choice, State, Context, Receipt}
use mineverse.Ledger.{checked_add, get_account, set_account}
use mineverse.Ledger.Supply.{
  coin_of_currency, credit_native-MovesCoin, debit_native-MovesCoin, credit_token-MovesCoin,
  debit_token-MovesCoin,
}
use mineverse.Ledger.{credit_native, debit_native, credit_token, debit_token}
use mineverse.Bank.Supply.{KeepsSupply}
use mineverse.Stocks.Supply.{amount_out-lt}
use mineverse.State.Core.{
  new_currency, set_currency, transfer, create_currency, buy, sell, create_vote, cast_vote,
  register_uuid,
}

module _ (from : String) (s : State) {t : State} where
  module _ (to : String) (amount : ℕ) where
    pay_native-Moves :
        (do s1 ← debit_native from amount s; credit_native to amount s1) ≡ ok t → KeepsSupply s t
    pay_native-Moves h =
        let (s1, e1, e2) = >>=-eq-ok _ _ h in
        ground (arith, debit_native-MovesCoin _ _ _ e1, credit_native-MovesCoin _ _ _ e2)

    pay_token-Moves :
        (symbol : String)
        → (do s1 ← debit_token from symbol amount s; credit_token to symbol amount s1) ≡ ok t
        → KeepsSupply s t
    pay_token-Moves symbol h =
        let (s1, e1, e2) = >>=-eq-ok _ _ h in
        ground (arith, debit_token-MovesCoin _ _ _ _ e1, credit_token-MovesCoin _ _ _ _ e2)

    pub transfer-Moves :
        (symbol : String) → transfer to amount symbol from s ≡ ok t → KeepsSupply s t
    unfolding transfer
    transfer-Moves symbol h =
        let (u1, g1, h1) = >>=-eq-ok _ _ h in
        elim (Bool-cases (str_eq symbol native)) [
          | inl coin ↦ pay_native-Moves (rw coin at h1)
          | inr token ↦
              let (u2, g2, h2) = >>=-eq-ok _ _ (rw token at h1) in pay_token-Moves symbol h2
        ]

  pub create_currency-Moves :
      (symbol name : String) (total_supply liquidity : ℕ) (ctx : Context)
      → create_currency symbol name total_supply liquidity ctx from s ≡ ok t
      → KeepsSupply s t
  unfolding create_currency
  create_currency-Moves symbol name total_supply liquidity ctx h =
      let (u1, g1, h1) = >>=-eq-ok _ _ h in
      let (u2, g2, h2) = >>=-eq-ok _ _ h1 in
      let (u3, g3, h3) = >>=-eq-ok _ _ h2 in
      let (s1, e1, h4) = >>=-eq-ok _ _ h3 in
      let creator_share = floor_div (times total_supply creator_supply_bps) 10000 in
      let cur = new_currency symbol name total_supply creator_share liquidity ctx from in
      ground (
        arith,
        debit_native-MovesCoin _ _ _ e1,
        credit_token-MovesCoin from creator_share (set_currency symbol cur s1) {t = t} symbol,
        Dict.total-put coin_of_currency s1.currencies symbol cur,
      )

  pub create_vote-Moves :
      (statement : String) (duration_ms : ℕ) (server_id : Option String) (hash : String)
      (ctx : Context)
      → create_vote statement duration_ms server_id hash ctx from s ≡ ok t
      → KeepsSupply s t
  unfolding create_vote ◌>>=◌
  create_vote-Moves statement duration_ms server_id hash ctx h = ground arith

  pub cast_vote-Moves :
      (vote_id : String) (choice : Choice)
      → cast_vote vote_id choice from s ≡ ok t
      → KeepsSupply s t
  unfolding cast_vote ◌>>=◌
  cast_vote-Moves vote_id choice h = ground arith

  pub register_uuid-Moves : (uuid : String) → register_uuid uuid from s ≡ ok t → KeepsSupply s t
  unfolding register_uuid ◌>>=◌ set_account get_account
  register_uuid-Moves uuid h = grind (arith, Dict.total-put)

module _ (hash from : String) (s : State) {t : State} {rs : List Receipt} (symbol : String)
    (amount_in min_out : ℕ) where
  pub buy-Moves : buy symbol amount_in min_out hash from s ≡ ok (t, rs) → KeepsSupply s t
  unfolding buy checked_add
  buy-Moves h =
      let (cur, g1, h1) = >>=-eq-ok _ _ h in
      let (out, g2, h2) = >>=-eq-ok _ _ h1 in
      let (u3, g3, h3) = >>=-eq-ok _ _ h2 in
      let (s1, e1, h4) = >>=-eq-ok _ _ h3 in
      let (r, g4, h5) = >>=-eq-ok _ _ h4 in
      let (s2, e2, h6) = >>=-eq-ok _ _ h5 in
      let cur' = record cur { reserve_native = r; reserve_token = cur.reserve_token - out } in
      ground (
        arith,
        debit_native-MovesCoin _ _ _ e1,
        credit_token-MovesCoin _ _ _ _ e2,
        Dict.total-put coin_of_currency s1.currencies symbol cur',
      )

  pub sell-Moves : sell symbol amount_in min_out hash from s ≡ ok (t, rs) → KeepsSupply s t
  unfolding sell
  sell-Moves h =
      let (cur, g1, h1) = >>=-eq-ok _ _ h in
      let (out, g2, h2) = >>=-eq-ok _ _ h1 in
      let (u3, g3, h3) = >>=-eq-ok _ _ h2 in
      let (s1, e1, h4) = >>=-eq-ok _ _ h3 in
      let (r, g4, h5) = >>=-eq-ok _ _ h4 in
      let (s2, e2, h6) = >>=-eq-ok _ _ h5 in
      let cur' = record cur { reserve_token = r; reserve_native = cur.reserve_native - out } in
      ground (
        arith,
        amount_out-lt _ _ _ g2,
        debit_token-MovesCoin _ _ _ _ e1,
        credit_native-MovesCoin _ _ _ e2,
        Dict.total-put coin_of_currency s1.currencies symbol cur',
      )
