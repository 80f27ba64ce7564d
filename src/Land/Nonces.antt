-- ===== src/Land/Nonces.antt =====
-- The handlers of land leave the nonces of accounts and the votes alone.
use mineverse.Prelude.{ℕ, String, Option, List, ◌≡◌, arith, ok, >>=-eq-ok}
use mineverse.Prelude.Int.{ℤ}
use mineverse.Records.{Chunk, State, Context, Receipt}
use mineverse.Land.{
  move_chunk, register_server, claim_chunk, set_chunk_sale, buy_chunk, transfer_chunk,
}
use mineverse.Ledger.Nonces.{KeepsNonce, credit_native-nonce, debit_native-nonce}
use mineverse.Bank.Nonces.{credit_treasury-nonce}

module _ (who : String) where
  move_chunk-nonce :
      (key : String) (chunk : Chunk) (to : String) (timestamp : ℕ) (s : State) {t : State}
      → move_chunk key chunk to timestamp s ≡ ok t
      → KeepsNonce who s t
  unfolding move_chunk
  move_chunk-nonce key chunk to timestamp s h =
      let (given, g1, h1) = >>=-eq-ok _ _ h in
      let (taken, g2, h2) = >>=-eq-ok _ _ h1 in ground arith

  module _ (from : String) (s : State) {t : State} where
    pub register_server-nonce :
        (server_id name : String) (description : Option String) (ctx : Context)
        → register_server server_id name description ctx from s ≡ ok t
        → KeepsNonce who s t
    unfolding register_server
    register_server-nonce server_id name description ctx h =
        let (u, g1, h1) = >>=-eq-ok _ _ h in
        let (s1, e1, h2) = >>=-eq-ok _ _ h1 in
        let (s2, e2, h3) = >>=-eq-ok _ _ h2 in
        ground (arith, debit_native-nonce who _ _ _ e1, credit_treasury-nonce who _ _ e2)

    module _ (server_id dimension : String) (x z : ℤ) where
      pub claim_chunk-nonce :
          (name : Option String) (ctx : Context)
          → claim_chunk server_id dimension x z name ctx from s ≡ ok t
          → KeepsNonce who s t
      unfolding claim_chunk
      claim_chunk-nonce name ctx h =
          let (server, g1, h1) = >>=-eq-ok _ _ h in
          let (u, g2, h2) = >>=-eq-ok _ _ h1 in
          let (s1, e1, h3) = >>=-eq-ok _ _ h2 in
          let (s2, e2, h4) = >>=-eq-ok _ _ h3 in
          let (tallied, g3, h5) = >>=-eq-ok _ _ h4 in
          ground (arith, debit_native-nonce who _ _ _ e1, credit_treasury-nonce who _ _ e2)

      pub set_chunk_sale-nonce :
          (price : ℕ)
          → set_chunk_sale server_id dimension x z price from s ≡ ok t
          → KeepsNonce who s t
      unfolding set_chunk_sale
      set_chunk_sale-nonce price h = let (chunk, g1, h1) = >>=-eq-ok _ _ h in ground arith

      pub transfer_chunk-nonce :
          (to : String) (ctx : Context)
          → transfer_chunk server_id dimension x z to ctx from s ≡ ok t
          → KeepsNonce who s t
      unfolding transfer_chunk
      transfer_chunk-nonce to ctx h =
          let (u, g1, h1) = >>=-eq-ok _ _ h in
          let (chunk, g2, h2) = >>=-eq-ok _ _ h1 in move_chunk-nonce _ chunk to ctx.timestamp s h2

      pub buy_chunk-nonce :
          (max_price : ℕ) (hash : String) (ctx : Context) {rs : List Receipt}
          → buy_chunk server_id dimension x z max_price hash ctx from s ≡ ok (t, rs)
          → KeepsNonce who s t
      unfolding buy_chunk
      buy_chunk-nonce max_price hash ctx h =
          let (chunk, g1, h1) = >>=-eq-ok _ _ h in
          let (u2, g2, h2) = >>=-eq-ok _ _ h1 in
          let (u3, g3, h3) = >>=-eq-ok _ _ h2 in
          let (u4, g4, h4) = >>=-eq-ok _ _ h3 in
          let (s1, e1, h5) = >>=-eq-ok _ _ h4 in
          let (s2, e2, h6) = >>=-eq-ok _ _ h5 in
          let (s3, e3, h7) = >>=-eq-ok _ _ h6 in
          let (s4, e4, h8) = >>=-eq-ok _ _ h7 in
          ground (
            arith,
            debit_native-nonce who _ _ _ e1,
            credit_native-nonce who _ _ _ e2,
            credit_treasury-nonce who _ _ e3,
            move_chunk-nonce _ _ _ _ _ e4,
          )
