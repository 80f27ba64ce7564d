-- ===== src/State/Escrowed.antt =====
-- The escrow of the bank, over transactions and blocks.
use mineverse.Prelude.{String, ℕ, List, [], ◌∷◌, ◌≡◌, arith, ok, >>=-eq-ok}
use mineverse.Records.{State, Context, Receipt}
use mineverse.Ledger.{set_account}
use mineverse.Ledger.Supply.{credit_native-MovesCoin, debit_native-MovesCoin}
use mineverse.Bank.Escrow.{
  KeepsEscrow, IsEscrowed, KeepsEscrow-IsEscrowed, KeepsEscrow-trans, process_expirations-Escrow,
}
use mineverse.Bank.Escrow.Handlers.{
  create_contract-Escrow, accept_contract-Escrow, reject_contract-Escrow, cancel_contract-Escrow,
  resolve_contract-Escrow,
}
use mineverse.Market.Escrow.{
  deposit_inventory-Escrow, withdraw_inventory-Escrow, list_item-Escrow, cancel_listing-Escrow,
  buy_listing-Escrow,
}
use mineverse.Land.Escrow.{
  register_server-Escrow, claim_chunk-Escrow, set_chunk_sale-Escrow, buy_chunk-Escrow,
  transfer_chunk-Escrow,
}
use mineverse.Stocks.Escrow.{
  create_company-Escrow, buy_shares-Escrow, sell_shares-Escrow, transfer_shares-Escrow,
  company_payout-Escrow, pay_dividend-Escrow,
}
use mineverse.Keys.{CryptoLib}
use mineverse.Block.{Block}
use mineverse.Transaction.{Payload, Transaction}
use mineverse.State.{
  handle, apply_transaction, apply_all, close_votes, process_expirations, apply_body, apply_block,
}
use mineverse.State.Conservation.{quietly-eq-ok}
use mineverse.State.Escrow.{
  transfer-Escrow, create_currency-Escrow, buy-Escrow, sell-Escrow, create_vote-Escrow,
  cast_vote-Escrow, register_uuid-Escrow,
}

handle-Escrow :
    (p : Payload) (hash : String) (ctx : Context) (from : String) (s : State) {t : State}
    {rs : List Receipt}
    → handle p hash ctx from s ≡ ok (t, rs)
    → KeepsEscrow s t
unfolding handle
handle-Escrow (Payload.coinbase to reward fees) hash ctx from s h = cc
handle-Escrow (Payload.transfer to amount symbol) hash ctx from s h =
    transfer-Escrow _ _ _ _ _ (quietly-eq-ok _ h)
handle-Escrow (Payload.create_currency symbol name total liquidity) hash ctx from s h =
    create_currency-Escrow _ _ _ _ _ _ _ (quietly-eq-ok _ h)
handle-Escrow (Payload.buy symbol amount_in min_out) hash ctx from s h = buy-Escrow _ _ _ _ _ _ h
handle-Escrow (Payload.sell symbol amount_in min_out) hash ctx from s h = sell-Escrow _ _ _ _ _ _ h
handle-Escrow (Payload.create_vote statement duration server_id) hash ctx from s h =
    create_vote-Escrow _ _ _ _ _ _ _ (quietly-eq-ok _ h)
handle-Escrow (Payload.cast_vote vote_id choice) hash ctx from s h =
    cast_vote-Escrow _ _ _ _ (quietly-eq-ok _ h)
handle-Escrow (Payload.create_contract contractee cost terms duration) hash ctx from s h =
    create_contract-Escrow _ _ _ _ _ _ _ _ (quietly-eq-ok _ h)
handle-Escrow (Payload.accept_contract id) hash ctx from s h =
    accept_contract-Escrow _ _ _ _ (quietly-eq-ok _ h)
handle-Escrow (Payload.reject_contract id) hash ctx from s h =
    reject_contract-Escrow _ _ _ _ (quietly-eq-ok _ h)
handle-Escrow (Payload.cancel_contract id) hash ctx from s h =
    cancel_contract-Escrow _ _ _ _ (quietly-eq-ok _ h)
handle-Escrow (Payload.resolve_contract id) hash ctx from s h =
    resolve_contract-Escrow _ _ _ _ (quietly-eq-ok _ h)
handle-Escrow (Payload.deposit_inventory uuid items server_id) hash ctx from s h =
    deposit_inventory-Escrow _ _ _ _ _ _ _ (quietly-eq-ok _ h)
handle-Escrow (Payload.withdraw_inventory inventory_id uuid) hash ctx from s h =
    withdraw_inventory-Escrow _ _ _ _ _ _ h
handle-Escrow (Payload.register_uuid uuid) hash ctx from s h =
    register_uuid-Escrow _ _ _ (quietly-eq-ok _ h)
handle-Escrow (Payload.list_item inventory_id price symbol memo_text) hash ctx from s h =
    list_item-Escrow _ _ _ _ _ _ _ _ (quietly-eq-ok _ h)
handle-Escrow (Payload.cancel_listing listing_id) hash ctx from s h =
    cancel_listing-Escrow _ _ _ (quietly-eq-ok _ h)
handle-Escrow (Payload.buy_listing listing_id) hash ctx from s h = buy_listing-Escrow _ _ _ _ _ h
handle-Escrow (Payload.register_server server_id name description) hash ctx from s h =
    register_server-Escrow _ _ _ _ _ _ (quietly-eq-ok _ h)
handle-Escrow (Payload.claim_chunk server_id dimension x z name) hash ctx from s h =
    claim_chunk-Escrow _ _ _ _ _ _ _ _ (quietly-eq-ok _ h)
handle-Escrow (Payload.set_chunk_sale server_id dimension x z price) hash ctx from s h =
    set_chunk_sale-Escrow _ _ _ _ _ _ _ (quietly-eq-ok _ h)
handle-Escrow (Payload.buy_chunk server_id dimension x z max_price) hash ctx from s h =
    buy_chunk-Escrow _ _ _ _ _ _ _ _ _ h
handle-Escrow (Payload.transfer_chunk server_id dimension x z to) hash ctx from s h =
    transfer_chunk-Escrow _ _ _ _ _ _ _ _ (quietly-eq-ok _ h)
handle-Escrow (Payload.create_company symbol name description shares liquidity server_id) hash ctx
      from s h =
    create_company-Escrow _ _ _ _ _ _ _ _ _ (quietly-eq-ok _ h)
handle-Escrow (Payload.buy_shares symbol amount_in min_out) hash ctx from s h =
    buy_shares-Escrow _ _ _ _ _ _ h
handle-Escrow (Payload.sell_shares symbol amount_in min_out) hash ctx from s h =
    sell_shares-Escrow _ _ _ _ _ _ h
handle-Escrow (Payload.transfer_shares symbol to amount) hash ctx from s h =
    transfer_shares-Escrow _ _ _ _ _ (quietly-eq-ok _ h)
handle-Escrow (Payload.company_payout symbol to amount memo) hash ctx from s h =
    company_payout-Escrow _ _ _ _ _ _ _ h
handle-Escrow (Payload.pay_dividend symbol amount) hash ctx from s h =
    pay_dividend-Escrow _ _ _ _ _ h
handle-Escrow (Payload.other name) hash ctx from s h = cc

close_votes-Escrow :
    (timestamp : ℕ) (ids : List String) (s : State) {t : State}
    → close_votes timestamp ids s ≡ ok t
    → KeepsEscrow s t
unfolding close_votes
close_votes-Escrow timestamp [] s h = ground arith
close_votes-Escrow timestamp (id ∷ ids) s h =
    let (v, g1, h1) = >>=-eq-ok _ _ h in ground (arith, close_votes-Escrow timestamp ids _ h1)

expirations-Escrow :
    (timestamp : ℕ) (s : State) {t : State}
    → process_expirations timestamp s ≡ ok t
    → KeepsEscrow s t
unfolding process_expirations
expirations-Escrow timestamp s h =
    let (s1, e1, h1) = >>=-eq-ok _ _ h in
    KeepsEscrow-trans s s1 _ (close_votes-Escrow timestamp _ s e1)
      (process_expirations-Escrow timestamp s1 h1)

module _ (lib : CryptoLib) where
  apply_transaction-Escrow :
      (tx : Transaction) (ctx : Context) (s : State) {t : State} {rs : List Receipt}
      → apply_transaction lib tx ctx s ≡ ok (t, rs)
      → KeepsEscrow s t
  unfolding apply_transaction set_account
  apply_transaction-Escrow tx ctx s h =
      let (u1, g1, h1) = >>=-eq-ok _ _ h in
      let (from, g2, h2) = >>=-eq-ok _ _ h1 in
      let (u3, g3, h3) = >>=-eq-ok _ _ h2 in
      let (s1, e1, h4) = >>=-eq-ok _ _ h3 in
      ground (arith, debit_native-MovesCoin _ _ _ e1, handle-Escrow _ _ _ _ _ h4)

  apply_all-Escrow :
      (txs : List Transaction) (ctx : Context) (s : State) (receipts : List Receipt) {t : State}
      {rs : List Receipt}
      → apply_all lib txs ctx s receipts ≡ ok (t, rs)
      → KeepsEscrow s t
  unfolding apply_all
  apply_all-Escrow [] ctx s receipts h = ground arith
  apply_all-Escrow (tx ∷ txs) ctx s receipts h =
      let (r, e1, h1) = >>=-eq-ok _ _ h in
      KeepsEscrow-trans s r.0 _ (apply_transaction-Escrow tx ctx s e1)
        (apply_all-Escrow txs ctx r.0 _ h1)

  apply_body-Escrow :
      (block : Block) (txs : List Transaction) (s : State) {t : State} {rs : List Receipt}
      → apply_body lib block txs s ≡ ok (t, rs)
      → KeepsEscrow s t
  unfolding apply_body
  apply_body-Escrow block [] s h = cc
  apply_body-Escrow block (coinbase ∷ body) s h =
      let (total, f, h1) = >>=-eq-ok _ _ h in
      let (c, g, h2) = >>=-eq-ok _ _ h1 in
      let (u, g3, h3) = >>=-eq-ok _ _ h2 in
      let (r, e1, h4) = >>=-eq-ok _ _ h3 in
      let (s2, e2, h5) = >>=-eq-ok _ _ h4 in
      let (s3, e3, h6) = >>=-eq-ok _ _ h5 in
      ground (
        arith,
        apply_all-Escrow body _ s _ e1,
        credit_native-MovesCoin _ _ _ e2,
        expirations-Escrow _ _ e3,
      )

  -- A block that applies keeps the bank's escrow: if the bank holds the costs of the proposed
  -- contracts as pending and those of the active ones in its vault, it still does after the block.
  pub apply_block-IsEscrowed :
      (s : State) (block : Block) {t : State} {rs : List Receipt}
      → IsEscrowed s
      → apply_block lib s block ≡ ok (t, rs)
      → IsEscrowed t
  unfolding apply_block
  apply_block-IsEscrowed s block w h =
      let (u, g, h1) = >>=-eq-ok _ _ h in
      KeepsEscrow-IsEscrowed s _ (apply_body-Escrow block block.transactions s h1) w
