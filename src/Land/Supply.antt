-- ===== src/Land/Supply.antt =====
-- Land is paid for: what a buyer loses, the seller and the bank get.
use mineverse.Prelude.{ℕ, String, Option, List, ◌≡◌, arith, ok, >>=-eq-ok}
use mineverse.Prelude.Int.{ℤ}
use mineverse.Config.{land_fee_bps}
use mineverse.Records.{Chunk, State, Context, Receipt}
use mineverse.Ledger.Fees.{fee_of-le}
use mineverse.Ledger.Supply.{credit_native-MovesCoin, debit_native-MovesCoin}
use mineverse.Bank.Supply.{KeepsSupply, credit_treasury-Moves}
use mineverse.Land.{
  move_chunk, register_server, claim_chunk, set_chunk_sale, buy_chunk, transfer_chunk,
}

move_chunk-Moves :
    (key : String) (chunk : Chunk) (to : String) (timestamp : ℕ) (s : State) {t : State}
    → move_chunk key chunk to timestamp s ≡ ok t
    → KeepsSupply s t
unfolding move_chunk
move_chunk-Moves key chunk to timestamp s h =
    let (given, g1, h1) = >>=-eq-ok _ _ h in let (taken, g2, h2) = >>=-eq-ok _ _ h1 in ground arith

module _ (from : String) (s : State) {t : State} where
  pub register_server-Moves :
      (server_id name : String) (description : Option String) (ctx : Context)
      → register_server server_id name description ctx from s ≡ ok t
      → KeepsSupply s t
  unfolding register_server
  register_server-Moves server_id name description ctx h =
      let (u, g1, h1) = >>=-eq-ok _ _ h in
      let (s1, e1, h2) = >>=-eq-ok _ _ h1 in
      let (s2, e2, h3) = >>=-eq-ok _ _ h2 in
      ground (arith, debit_native-MovesCoin _ _ _ e1, credit_treasury-Moves _ _ e2)

  module _ (server_id dimension : String) (x z : ℤ) where
    pub claim_chunk-Moves :
        (name : Option String) (ctx : Context)
        → claim_chunk server_id dimension x z name ctx from s ≡ ok t
        → KeepsSupply s t
    unfolding claim_chunk
    claim_chunk-Moves name ctx h =
        let (server, g1, h1) = >>=-eq-ok _ _ h in
        let (u, g2, h2) = >>=-eq-ok _ _ h1 in
        let (s1, e1, h3) = >>=-eq-ok _ _ h2 in
        let (s2, e2, h4) = >>=-eq-ok _ _ h3 in
        let (tallied, g3, h5) = >>=-eq-ok _ _ h4 in
        ground (arith, debit_native-MovesCoin _ _ _ e1, credit_treasury-Moves _ _ e2)

    pub set_chunk_sale-Moves :
        (price : ℕ) → set_chunk_sale server_id dimension x z price from s ≡ ok t → KeepsSupply s t
    unfolding set_chunk_sale
    set_chunk_sale-Moves price h = let (chunk, g1, h1) = >>=-eq-ok _ _ h in ground arith

    pub transfer_chunk-Moves :
        (to : String) (ctx : Context)
        → transfer_chunk server_id dimension x z to ctx from s ≡ ok t
        → KeepsSupply s t
    unfolding transfer_chunk
    transfer_chunk-Moves to ctx h =
        let (u, g1, h1) = >>=-eq-ok _ _ h in
        let (chunk, g2, h2) = >>=-eq-ok _ _ h1 in move_chunk-Moves _ chunk to ctx.timestamp s h2

    pub buy_chunk-Moves :
        (max_price : ℕ) (hash : String) (ctx : Context) {rs : List Receipt}
        → buy_chunk server_id dimension x z max_price hash ctx from s ≡ ok (t, rs)
        → KeepsSupply s t
    unfolding buy_chunk
    buy_chunk-Moves max_price hash ctx h =
        let (chunk, g1, h1) = >>=-eq-ok _ _ h in
        let (u2, g2, h2) = >>=-eq-ok _ _ h1 in
        let (u3, g3, h3) = >>=-eq-ok _ _ h2 in
        let (u4, g4, h4) = >>=-eq-ok _ _ h3 in
        let (s1, e1, h5) = >>=-eq-ok _ _ h4 in
        let (s2, e2, h6) = >>=-eq-ok _ _ h5 in
        let (s3, e3, h7) = >>=-eq-ok _ _ h6 in
        let (s4, e4, h8) = >>=-eq-ok _ _ h7 in
        ground (
          arith,
          fee_of-le chunk.price land_fee_bps,
          debit_native-MovesCoin _ _ _ e1,
          credit_native-MovesCoin _ _ _ e2,
          credit_treasury-Moves _ _ e3,
          move_chunk-Moves _ _ _ _ _ e4,
        )
