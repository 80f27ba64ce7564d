-- ===== src/State/Spending.antt =====
-- Every transaction in the body of an applied block is spent, and stays so.
use mineverse.Prelude.{List, [], ◌∷◌, ◌≡◌, arith, ok, err, >>=-eq-ok}
use mineverse.Records.{State, Context, Receipt, bad_nonce}
use mineverse.Ledger.Nonces.{credit_native-nonce}
use mineverse.Keys.{CryptoLib}
use mineverse.Block.{Block}
use mineverse.Transaction.{Transaction}
use mineverse.State.{apply_transaction, apply_all, apply_body, apply_block}
use mineverse.State.Replay.{
  Spent, Grows, Spent-Grows, apply_transaction-Spent, apply_transaction-Grows, new_Spent,
  expirations-nonce,
}

-- The transactions of a block after its coinbase.
abbrev pub body_of : List Transaction → List Transaction
body_of [] = []
body_of (coinbase ∷ body) = body

module _ (lib : CryptoLib) where
  abbrev pub AllSpent : List Transaction → State → Type 0
  AllSpent [] s = Unit
  AllSpent (tx ∷ txs) s = Spent lib tx s × AllSpent txs s

  pub AllSpent-Grows :
      (txs : List Transaction) (s t : State) → AllSpent txs s → Grows s t → AllSpent txs t
  AllSpent-Grows [] s t w g = tt
  AllSpent-Grows (tx ∷ txs) s t (w, ws) g =
      (Spent-Grows lib tx s t w g, AllSpent-Grows txs s t ws g)

  apply_all-Spent :
      (txs : List Transaction) (ctx : Context) (s : State) (receipts : List Receipt) {t : State}
      {rs : List Receipt}
      → apply_all lib txs ctx s receipts ≡ ok (t, rs)
      → AllSpent txs t × Grows s t
  unfolding apply_all
  apply_all-Spent [] ctx s receipts h = (tt, λ who. ground arith)
  apply_all-Spent (tx ∷ txs) ctx s receipts {t} h =
      let (r, e, h1) = >>=-eq-ok _ _ h in
      let (ws, g) = apply_all-Spent txs ctx r.0 _ h1 in
      (
        (Spent-Grows lib tx r.0 t (new_Spent lib tx ctx s e) g, ws),
        λ who. omega (arith, apply_transaction-Grows lib tx ctx s e who, g who),
      )

  apply_body-Spent :
      (block : Block) (txs : List Transaction) (s : State) {t : State} {rs : List Receipt}
      → apply_body lib block txs s ≡ ok (t, rs)
      → AllSpent (body_of txs) t × Grows s t
  unfolding apply_body
  apply_body-Spent block [] s h = cc
  apply_body-Spent block (coinbase ∷ body) s {t} h =
      let (total, f, h1) = >>=-eq-ok _ _ h in
      let (c, g, h2) = >>=-eq-ok _ _ h1 in
      let (u, g3, h3) = >>=-eq-ok _ _ h2 in
      let (r, e1, h4) = >>=-eq-ok _ _ h3 in
      let (s2, e2, h5) = >>=-eq-ok _ _ h4 in
      let (s3, e3, h6) = >>=-eq-ok _ _ h5 in
      let (ws, k) = apply_all-Spent body _ s _ e1 in
      let later : Grows r.0 t =
        λ who. ground (arith, credit_native-nonce who _ _ r.0 e2, expirations-nonce who _ s2 e3) in
      (AllSpent-Grows body r.0 t ws later, λ who. omega (arith, k who, later who))

  pub apply_block-Spent :
      (s : State) (block : Block) {t : State} {rs : List Receipt}
      → apply_block lib s block ≡ ok (t, rs)
      → AllSpent (body_of block.transactions) t × Grows s t
  unfolding apply_block
  apply_block-Spent s block h =
      let (u, g, h1) = >>=-eq-ok _ _ h in apply_body-Spent block block.transactions s h1

  -- Whatever the context, none of the transactions applies to the state.
  abbrev pub AllRefused : List Transaction → State → Type 0
  AllRefused [] s = Unit
  AllRefused (tx ∷ txs) s =
      ((ctx : Context) → apply_transaction lib tx ctx s ≡ err bad_nonce) × AllRefused txs s

  pub AllSpent-AllRefused : (txs : List Transaction) (s : State) → AllSpent txs s → AllRefused txs s
  AllSpent-AllRefused [] s w = tt
  AllSpent-AllRefused (tx ∷ txs) s (w, ws) =
      (λ ctx. apply_transaction-Spent lib tx ctx s w, AllSpent-AllRefused txs s ws)
