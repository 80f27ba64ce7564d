-- ===== src/State/Ballots.antt =====
-- The votes that the transactions of a block cast (`applyBlock` of src/core/state.js).
use mineverse.Prelude.{
  ℕ, ◌+◌, ◌≤◌, String, none, some, List, [], ◌∷◌, ◌≡◌, ap, arith, ok, >>=-eq-ok,
}
use mineverse.Records.{State, Context, Receipt}
use mineverse.Ledger.{set_account}
use mineverse.Ledger.Nonces.{credit_native-nonce, debit_native-nonce}
use mineverse.Keys.{CryptoLib}
use mineverse.Block.{Block}
use mineverse.Transaction.{Transaction}
use mineverse.State.{sender_of, apply_transaction, apply_all, apply_body, apply_block}
use mineverse.State.Replay.{handle-kept, expirations-kept}
use mineverse.State.Spending.{body_of}
use mineverse.State.Votes.{voted, ballot}

module _ (lib : CryptoLib) (voter id : String) where
  -- 1 if a transaction casts the vote of the voter in the vote with the id.
  abbrev pub ballot_of : Transaction → ℕ
  ballot_of tx = elim (sender_of lib tx) [ none ↦ 0 | some from ↦ ballot voter id from tx.payload ]

  -- How many transactions cast the vote of the voter in the vote with the id.
  unfoldable pub ballots : List Transaction → ℕ
  ballots [] = 0
  ballots (tx ∷ txs) = ballot_of tx + ballots txs

  ballot_of-eq :
      (tx : Transaction) (from : String)
      → sender_of lib tx ≡ some from
      → ballot_of tx ≡ ballot voter id from tx.payload
  ballot_of-eq tx from e = ground arith

  apply_transaction-voted :
      (tx : Transaction) (ctx : Context) (s : State) {t : State} {rs : List Receipt}
      → apply_transaction lib tx ctx s ≡ ok (t, rs)
      → voted voter id s.votes + ballot_of tx ≤ voted voter id t.votes
  unfolding apply_transaction set_account
  apply_transaction-voted tx ctx s h =
      let (u1, g1, h1) = >>=-eq-ok _ _ h in
      let (from, g2, h2) = >>=-eq-ok _ _ h1 in
      let (u3, g3, h3) = >>=-eq-ok _ _ h2 in
      let (s1, e1, h4) = >>=-eq-ok _ _ h3 in
      let sent : sender_of lib tx ≡ some from = ground arith in
      let paid = ap (voted voter id) (debit_native-nonce from from tx.fee s e1).1 in
      let cast = (handle-kept from voter id tx.payload tx.hash ctx from _ h4).1 in
      omega (arith, paid, ballot_of-eq tx from sent, cast)

  apply_all-voted :
      (txs : List Transaction) (ctx : Context) (s : State) (receipts : List Receipt) {t : State}
      {rs : List Receipt}
      → apply_all lib txs ctx s receipts ≡ ok (t, rs)
      → voted voter id s.votes + ballots txs ≤ voted voter id t.votes
  unfolding apply_all ballots
  apply_all-voted [] ctx s receipts h = ground arith
  apply_all-voted (tx ∷ txs) ctx s receipts h =
      let (r, e, h1) = >>=-eq-ok _ _ h in
      omega (arith, apply_transaction-voted tx ctx s e, apply_all-voted txs ctx r.0 _ h1)

  apply_body-voted :
      (block : Block) (txs : List Transaction) (s : State) {t : State} {rs : List Receipt}
      → apply_body lib block txs s ≡ ok (t, rs)
      → voted voter id s.votes + ballots (body_of txs) ≤ voted voter id t.votes
  unfolding apply_body
  apply_body-voted block [] s h = cc
  apply_body-voted block (coinbase ∷ body) s {t} h =
      let (total, f, h1) = >>=-eq-ok _ _ h in
      let (c, g, h2) = >>=-eq-ok _ _ h1 in
      let (u, g3, h3) = >>=-eq-ok _ _ h2 in
      let (r, e1, h4) = >>=-eq-ok _ _ h3 in
      let (s2, e2, h5) = >>=-eq-ok _ _ h4 in
      let (s3, e3, h6) = >>=-eq-ok _ _ h5 in
      let rewarded = ap (voted voter id) (credit_native-nonce voter _ _ r.0 e2).1 in
      let (nonce, closed) = expirations-kept voter voter id _ s2 e3 in
      let same : t.votes ≡ s3.votes = ground arith in
      omega (arith, apply_all-voted body _ s _ e1, rewarded, closed, ap (voted voter id) same)

  -- What has been voted stays so, and the ballots of a block are new.
  pub apply_block-voted :
      (s : State) (block : Block) {t : State} {rs : List Receipt}
      → apply_block lib s block ≡ ok (t, rs)
      → voted voter id s.votes + ballots (body_of block.transactions) ≤ voted voter id t.votes
  unfolding apply_block
  apply_block-voted s block h =
      let (u, g, h1) = >>=-eq-ok _ _ h in apply_body-voted block block.transactions s h1
