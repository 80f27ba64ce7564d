-- ===== src/State/Conservation.antt =====
-- No transaction creates coin: a block adds its reward and the bank's interest, and nothing else.
use mineverse.Prelude.{ℕ, ◌+◌, String, List, [], ◌∷◌, ◌≡◌, refl, arith, ok, ◌>>=◌, >>=-eq-ok}
use mineverse.Config.{block_reward}
use mineverse.Dict
use mineverse.Records.{State, Context, Receipt}
use mineverse.Ledger.{Call, checked_add, get_account, set_account}
use mineverse.Ledger.Supply.{supply, credit_native-MovesCoin, debit_native-MovesCoin}
use mineverse.Bank.Supply.{
  Moves, KeepsSupply, create_contract-Moves, accept_contract-Moves, reject_contract-Moves,
  cancel_contract-Moves, resolve_contract-Moves, process_expirations-Moves,
}
use mineverse.Market.Supply.{
  deposit_inventory-Moves, withdraw_inventory-Moves, list_item-Moves, cancel_listing-Moves,
  buy_listing-Moves,
}
use mineverse.Land.Supply.{
  register_server-Moves, claim_chunk-Moves, set_chunk_sale-Moves, buy_chunk-Moves,
  transfer_chunk-Moves,
}
use mineverse.Stocks.Supply.{
  create_company-Moves, buy_shares-Moves, sell_shares-Moves, transfer_shares-Moves,
  company_payout-Moves,
}
use mineverse.Stocks.Dividends.{pay_dividend-Moves}
use mineverse.Keys.{CryptoLib}
use mineverse.Block.{Block}
use mineverse.Transaction.{Payload, Transaction}
use mineverse.State.{
  quietly, handle, apply_transaction, apply_all, close_votes, process_expirations, fee_total,
  check_coinbase, apply_body, apply_block,
}
use mineverse.State.Supply.{
  transfer-Moves, create_currency-Moves, buy-Moves, sell-Moves, create_vote-Moves, cast_vote-Moves,
  register_uuid-Moves,
}

-- A quiet handler's outcome is the state that its call returned.
pub quietly-eq-ok :
    (r : Call State) {t : State} {rs : List Receipt} → quietly r ≡ ok (t, rs) → r ≡ ok t
unfolding ◌>>=◌
quietly-eq-ok r h = ground arith

-- Every handler keeps the supply, but for interest.
pub handle-Moves :
    (p : Payload) (hash : String) (ctx : Context) (from : String) (s : State) {t : State}
    {rs : List Receipt}
    → handle p hash ctx from s ≡ ok (t, rs)
    → KeepsSupply s t
unfolding handle
handle-Moves (Payload.coinbase to reward fees) hash ctx from s h = cc
handle-Moves (Payload.transfer to amount symbol) hash ctx from s h =
    transfer-Moves _ _ _ _ _ (quietly-eq-ok _ h)
handle-Moves (Payload.create_currency symbol name total liquidity) hash ctx from s h =
    create_currency-Moves _ _ _ _ _ _ _ (quietly-eq-ok _ h)
handle-Moves (Payload.buy symbol amount_in min_out) hash ctx from s h = buy-Moves _ _ _ _ _ _ h
handle-Moves (Payload.sell symbol amount_in min_out) hash ctx from s h = sell-Moves _ _ _ _ _ _ h
handle-Moves (Payload.create_vote statement duration server_id) hash ctx from s h =
    create_vote-Moves _ _ _ _ _ _ _ (quietly-eq-ok _ h)
handle-Moves (Payload.cast_vote vote_id choice) hash ctx from s h =
    cast_vote-Moves _ _ _ _ (quietly-eq-ok _ h)
handle-Moves (Payload.create_contract contractee cost terms duration) hash ctx from s h =
    create_contract-Moves _ _ _ _ _ _ _ _ (quietly-eq-ok _ h)
handle-Moves (Payload.accept_contract id) hash ctx from s h =
    accept_contract-Moves _ _ _ _ (quietly-eq-ok _ h)
handle-Moves (Payload.reject_contract id) hash ctx from s h =
    reject_contract-Moves _ _ _ _ (quietly-eq-ok _ h)
handle-Moves (Payload.cancel_contract id) hash ctx from s h =
    cancel_contract-Moves _ _ _ _ (quietly-eq-ok _ h)
handle-Moves (Payload.resolve_contract id) hash ctx from s h =
    resolve_contract-Moves _ _ _ _ (quietly-eq-ok _ h)
handle-Moves (Payload.deposit_inventory uuid items server_id) hash ctx from s h =
    deposit_inventory-Moves _ _ _ _ _ _ _ (quietly-eq-ok _ h)
handle-Moves (Payload.withdraw_inventory inventory_id uuid) hash ctx from s h =
    withdraw_inventory-Moves _ _ _ _ _ _ h
handle-Moves (Payload.register_uuid uuid) hash ctx from s h =
    register_uuid-Moves _ _ _ (quietly-eq-ok _ h)
handle-Moves (Payload.list_item inventory_id price symbol memo_text) hash ctx from s h =
    list_item-Moves _ _ _ _ _ _ _ _ (quietly-eq-ok _ h)
handle-Moves (Payload.cancel_listing listing_id) hash ctx from s h =
    cancel_listing-Moves _ _ _ (quietly-eq-ok _ h)
handle-Moves (Payload.buy_listing listing_id) hash ctx from s h = buy_listing-Moves _ _ _ _ _ h
handle-Moves (Payload.register_server server_id name description) hash ctx from s h =
    register_server-Moves _ _ _ _ _ _ (quietly-eq-ok _ h)
handle-Moves (Payload.claim_chunk server_id dimension x z name) hash ctx from s h =
    claim_chunk-Moves _ _ _ _ _ _ _ _ (quietly-eq-ok _ h)
handle-Moves (Payload.set_chunk_sale server_id dimension x z price) hash ctx from s h =
    set_chunk_sale-Moves _ _ _ _ _ _ _ (quietly-eq-ok _ h)
handle-Moves (Payload.buy_chunk server_id dimension x z max_price) hash ctx from s h =
    buy_chunk-Moves _ _ _ _ _ _ _ _ _ h
handle-Moves (Payload.transfer_chunk server_id dimension x z to) hash ctx from s h =
    transfer_chunk-Moves _ _ _ _ _ _ _ _ (quietly-eq-ok _ h)
handle-Moves (Payload.create_company symbol name description shares liquidity server_id) hash ctx
      from s h =
    create_company-Moves _ _ _ _ _ _ _ _ _ (quietly-eq-ok _ h)
handle-Moves (Payload.buy_shares symbol amount_in min_out) hash ctx from s h =
    buy_shares-Moves _ _ _ _ _ _ h
handle-Moves (Payload.sell_shares symbol amount_in min_out) hash ctx from s h =
    sell_shares-Moves _ _ _ _ _ _ h
handle-Moves (Payload.transfer_shares symbol to amount) hash ctx from s h =
    transfer_shares-Moves _ _ _ _ _ (quietly-eq-ok _ h)
handle-Moves (Payload.company_payout symbol to amount memo) hash ctx from s h =
    company_payout-Moves _ _ _ _ _ _ _ h
handle-Moves (Payload.pay_dividend symbol amount) hash ctx from s h = pay_dividend-Moves _ _ _ _ _ h
handle-Moves (Payload.other name) hash ctx from s h = cc

-- A new nonce is no coin.
set_nonce-supply :
    (address : String) (n : ℕ) (s : State)
    → supply (set_account s address (record (get_account s address) { nonce = n })) ≡ supply s
unfolding set_account get_account
set_nonce-supply address n s = grind (arith, Dict.total-put)

bank-set_account :
    (address : String) (n : ℕ) (s : State)
    → (set_account s address (record (get_account s address) { nonce = n })).bank ≡ s.bank
unfolding set_account
bank-set_account address n s = refl

module _ (lib : CryptoLib) where
  -- A transaction that applies takes its fee out of the supply, until the coinbase pays it, and
  -- changes it by nothing else but the interest that the bank mints.
  pub apply_transaction-Moves :
      (tx : Transaction) (ctx : Context) (s : State) {t : State} {rs : List Receipt}
      → apply_transaction lib tx ctx s ≡ ok (t, rs)
      → Moves tx.fee 0 s t
  unfolding apply_transaction
  apply_transaction-Moves tx ctx s h =
      let (u1, g1, h1) = >>=-eq-ok _ _ h in
      let (from, g2, h2) = >>=-eq-ok _ _ h1 in
      let (u3, g3, h3) = >>=-eq-ok _ _ h2 in
      let (s1, e1, h4) = >>=-eq-ok _ _ h3 in
      let n = (get_account s1 from).nonce + 1 in
      ground (
        arith,
        debit_native-MovesCoin _ _ _ e1,
        set_nonce-supply from n s1,
        bank-set_account from n s1,
        handle-Moves _ _ _ _ _ h4,
      )

  apply_all-Moves :
      (txs : List Transaction) (ctx : Context) (s : State) (receipts : List Receipt) (sum : ℕ)
      {total : ℕ} {t : State} {rs : List Receipt}
      → fee_total sum txs ≡ ok total
      → apply_all lib txs ctx s receipts ≡ ok (t, rs)
      → Moves total sum s t
  unfolding apply_all fee_total checked_add
  apply_all-Moves [] ctx s receipts sum f h = ground arith
  apply_all-Moves (tx ∷ txs) ctx s receipts sum {total} {t} f h =
      let (next, f1, f2) = >>=-eq-ok _ _ f in
      let (r, e1, h1) = >>=-eq-ok _ _ h in
      ground (arith, apply_transaction-Moves tx ctx s e1, apply_all-Moves txs ctx r.0 _ next f2 h1)

close_votes-Moves :
    (timestamp : ℕ) (ids : List String) (s : State) {t : State}
    → close_votes timestamp ids s ≡ ok t
    → KeepsSupply s t
unfolding close_votes
close_votes-Moves timestamp [] s h = ground arith
close_votes-Moves timestamp (id ∷ ids) s h =
    let (v, g1, h1) = >>=-eq-ok _ _ h in omega (arith, close_votes-Moves timestamp ids _ h1)

expirations-Moves :
    (timestamp : ℕ) (s : State) {t : State}
    → process_expirations timestamp s ≡ ok t
    → KeepsSupply s t
unfolding process_expirations
expirations-Moves timestamp s h =
    let (s1, e1, h1) = >>=-eq-ok _ _ h in
    omega (arith, close_votes-Moves timestamp _ s e1, process_expirations-Moves timestamp s1 h1)

check_coinbase-eq :
    (p : Payload) (total : ℕ) {r : String × ℕ}
    → check_coinbase p total ≡ ok r
    → r.1 ≡ block_reward + total
unfolding check_coinbase ◌>>=◌
check_coinbase-eq (Payload.coinbase to reward fees) total h = ground arith
check_coinbase-eq _ total h = cc

module _ (lib : CryptoLib) where
  apply_body-Moves :
      (block : Block) (txs : List Transaction) (s : State) {t : State} {rs : List Receipt}
      → apply_body lib block txs s ≡ ok (t, rs)
      → Moves 0 block_reward s t
  unfolding apply_body
  apply_body-Moves block [] s h = cc
  apply_body-Moves block (coinbase ∷ body) s h =
      let (total, f, h1) = >>=-eq-ok _ _ h in
      let (c, g, h2) = >>=-eq-ok _ _ h1 in
      let (u, g3, h3) = >>=-eq-ok _ _ h2 in
      let (r, e1, h4) = >>=-eq-ok _ _ h3 in
      let (s2, e2, h5) = >>=-eq-ok _ _ h4 in
      let (s3, e3, h6) = >>=-eq-ok _ _ h5 in
      ground (
        arith,
        check_coinbase-eq coinbase.payload total g,
        apply_all-Moves lib body _ s _ 0 f e1,
        credit_native-MovesCoin _ _ _ e2,
        expirations-Moves _ _ e3,
      )

  -- A block that applies adds its reward and the interest that the bank has minted to the coin of
  -- all accounts, pools, companies and the bank, and nothing else.
  pub supply-apply_block :
      (s : State) (block : Block) {t : State} {rs : List Receipt}
      → apply_block lib s block ≡ ok (t, rs)
      → supply t + s.bank.interest_paid ≡ supply s + block_reward + t.bank.interest_paid
  unfolding apply_block
  supply-apply_block s block h =
      let (u, g, h1) = >>=-eq-ok _ _ h in
      omega (arith, apply_body-Moves block block.transactions s h1)
