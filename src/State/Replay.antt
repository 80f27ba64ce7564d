-- ===== src/State/Replay.antt =====
-- A transaction that has been applied is never applied again.
use mineverse.Prelude.{
  ℕ, ◌+◌, ◌≤◌, ◌<◌, String, some, List, [], ◌∷◌, ◌≡◌, ap, ◌∙◌, arith, ok, err, ◌>>=◌, >>=-eq-ok,
  eq_iff, false, if◌then◌else◌, str_eq,
}
use mineverse.Dict.{Dict}
use mineverse.Records.{Account, Vote, State, Context, Receipt}
use mineverse.Records.{bad_nonce}
use mineverse.Ledger.{set_account, get_account}
use mineverse.Ledger.Nonces.{nonce_of, get_account-nonce, nonce_of-put, debit_native-nonce}
use mineverse.Bank.Nonces.{
  create_contract-nonce, accept_contract-nonce, reject_contract-nonce, cancel_contract-nonce,
  resolve_contract-nonce, process_expirations-nonce,
}
use mineverse.Market.Nonces.{
  deposit_inventory-nonce, withdraw_inventory-nonce, list_item-nonce, cancel_listing-nonce,
  buy_listing-nonce,
}
use mineverse.Land.Nonces.{
  register_server-nonce, claim_chunk-nonce, set_chunk_sale-nonce, buy_chunk-nonce,
  transfer_chunk-nonce,
}
use mineverse.Stocks.Nonces.{
  create_company-nonce, buy_shares-nonce, sell_shares-nonce, transfer_shares-nonce,
  company_payout-nonce, pay_dividend-nonce,
}
use mineverse.Keys.{CryptoLib}
use mineverse.Transaction.{Payload, Transaction}
use mineverse.State.{
  is_coinbase, handle, sender_of, apply_transaction, close_vote, close_votes, process_expirations,
}
use mineverse.State.Conservation.{quietly-eq-ok}
use mineverse.State.Votes.{voted, voted-put, voted-get, ballot, cast_vote-voted, create_vote-voted}
use mineverse.State.Nonces.{
  transfer-nonce, create_currency-nonce, buy-nonce, sell-nonce, create_vote-nonce, cast_vote-nonce,
  register_uuid-nonce,
}

module _ (who voter id : String) where
  -- What leaves the nonce and the votes alone.
  kept :
      (accounts next : Dict Account) (votes later : Dict Vote)
      → (nonce_of next who ≡ nonce_of accounts who) × (later ≡ votes)
      → (nonce_of next who ≡ nonce_of accounts who)
        × (voted voter id votes + 0 ≤ voted voter id later)
  kept accounts next votes later (nonce, same) = (nonce, omega (arith, ap (voted voter id) same))

  pub handle-kept :
      (p : Payload) (hash : String) (ctx : Context) (from : String) (s : State) {t : State}
      {rs : List Receipt}
      → handle p hash ctx from s ≡ ok (t, rs)
      → (nonce_of t.accounts who ≡ nonce_of s.accounts who)
        × (voted voter id s.votes + ballot voter id from p ≤ voted voter id t.votes)
  unfolding handle
  handle-kept (Payload.coinbase to reward fees) hash ctx from s h = cc
  handle-kept (Payload.transfer to amount symbol) hash ctx from s h =
      kept _ _ _ _ (transfer-nonce who _ _ _ _ _ (quietly-eq-ok _ h))
  handle-kept (Payload.create_currency symbol name total liquidity) hash ctx from s h =
      kept _ _ _ _ (create_currency-nonce who _ _ _ _ _ _ _ (quietly-eq-ok _ h))
  handle-kept (Payload.buy symbol amount_in min_out) hash ctx from s h =
      kept _ _ _ _ (buy-nonce who _ _ _ _ _ _ h)
  handle-kept (Payload.sell symbol amount_in min_out) hash ctx from s h =
      kept _ _ _ _ (sell-nonce who _ _ _ _ _ _ h)
  handle-kept (Payload.create_vote statement duration server_id) hash ctx from s h = (
    create_vote-nonce who _ _ _ _ _ _ _ (quietly-eq-ok _ h),
    ground (arith, create_vote-voted voter id _ _ _ _ _ _ _ (quietly-eq-ok _ h)),
  )
  handle-kept (Payload.cast_vote vote_id choice) hash ctx from s h = (
    cast_vote-nonce who _ _ _ _ (quietly-eq-ok _ h),
    cast_vote-voted voter id _ _ _ _ (quietly-eq-ok _ h),
  )
  handle-kept (Payload.create_contract contractee cost terms duration) hash ctx from s h =
      kept _ _ _ _ (create_contract-nonce who _ _ _ _ _ _ _ _ (quietly-eq-ok _ h))
  handle-kept (Payload.accept_contract id) hash ctx from s h =
      kept _ _ _ _ (accept_contract-nonce who _ _ _ _ (quietly-eq-ok _ h))
  handle-kept (Payload.reject_contract id) hash ctx from s h =
      kept _ _ _ _ (reject_contract-nonce who _ _ _ _ (quietly-eq-ok _ h))
  handle-kept (Payload.cancel_contract id) hash ctx from s h =
      kept _ _ _ _ (cancel_contract-nonce who _ _ _ _ (quietly-eq-ok _ h))
  handle-kept (Payload.resolve_contract id) hash ctx from s h =
      kept _ _ _ _ (resolve_contract-nonce who _ _ _ _ (quietly-eq-ok _ h))
  handle-kept (Payload.deposit_inventory uuid items server_id) hash ctx from s h =
      kept _ _ _ _ (deposit_inventory-nonce who _ _ _ _ _ _ _ (quietly-eq-ok _ h))
  handle-kept (Payload.withdraw_inventory inventory_id uuid) hash ctx from s h =
      kept _ _ _ _ (withdraw_inventory-nonce who _ _ _ _ _ _ h)
  handle-kept (Payload.register_uuid uuid) hash ctx from s h =
      kept _ _ _ _ (register_uuid-nonce who _ _ _ (quietly-eq-ok _ h))
  handle-kept (Payload.list_item inventory_id price symbol memo_text) hash ctx from s h =
      kept _ _ _ _ (list_item-nonce who _ _ _ _ _ _ _ _ (quietly-eq-ok _ h))
  handle-kept (Payload.cancel_listing listing_id) hash ctx from s h =
      kept _ _ _ _ (cancel_listing-nonce who _ _ _ (quietly-eq-ok _ h))
  handle-kept (Payload.buy_listing listing_id) hash ctx from s h =
      kept _ _ _ _ (buy_listing-nonce who _ _ _ _ _ h)
  handle-kept (Payload.register_server server_id name description) hash ctx from s h =
      kept _ _ _ _ (register_server-nonce who _ _ _ _ _ _ (quietly-eq-ok _ h))
  handle-kept (Payload.claim_chunk server_id dimension x z name) hash ctx from s h =
      kept _ _ _ _ (claim_chunk-nonce who _ _ _ _ _ _ _ _ (quietly-eq-ok _ h))
  handle-kept (Payload.set_chunk_sale server_id dimension x z price) hash ctx from s h =
      kept _ _ _ _ (set_chunk_sale-nonce who _ _ _ _ _ _ _ (quietly-eq-ok _ h))
  handle-kept (Payload.buy_chunk server_id dimension x z max_price) hash ctx from s h =
      kept _ _ _ _ (buy_chunk-nonce who _ _ _ _ _ _ _ _ _ h)
  handle-kept (Payload.transfer_chunk server_id dimension x z to) hash ctx from s h =
      kept _ _ _ _ (transfer_chunk-nonce who _ _ _ _ _ _ _ _ (quietly-eq-ok _ h))
  handle-kept (Payload.create_company symbol name description shares liquidity server_id) hash ctx
        from s h =
      kept _ _ _ _ (create_company-nonce who _ _ _ _ _ _ _ _ _ (quietly-eq-ok _ h))
  handle-kept (Payload.buy_shares symbol amount_in min_out) hash ctx from s h =
      kept _ _ _ _ (buy_shares-nonce who _ _ _ _ _ _ h)
  handle-kept (Payload.sell_shares symbol amount_in min_out) hash ctx from s h =
      kept _ _ _ _ (sell_shares-nonce who _ _ _ _ _ _ h)
  handle-kept (Payload.transfer_shares symbol to amount) hash ctx from s h =
      kept _ _ _ _ (transfer_shares-nonce who _ _ _ _ _ (quietly-eq-ok _ h))
  handle-kept (Payload.company_payout symbol to amount memo) hash ctx from s h =
      kept _ _ _ _ (company_payout-nonce who _ _ _ _ _ _ _ h)
  handle-kept (Payload.pay_dividend symbol amount) hash ctx from s h =
      kept _ _ _ _ (pay_dividend-nonce who _ _ _ _ _ h)
  handle-kept (Payload.other name) hash ctx from s h = cc

  close_votes-kept :
      (timestamp : ℕ) (ids : List String) (s : State) {t : State}
      → close_votes timestamp ids s ≡ ok t
      → (nonce_of t.accounts who ≡ nonce_of s.accounts who)
        × (voted voter id t.votes ≡ voted voter id s.votes)
  unfolding close_votes close_vote
  close_votes-kept timestamp [] s h = ground arith
  close_votes-kept timestamp (vote_id ∷ ids) s h =
      let (v, g1, h1) = >>=-eq-ok _ _ h in
      ground (
        arith,
        close_votes-kept timestamp ids _ h1,
        voted-put voter id s.votes vote_id (close_vote timestamp v),
        voted-get voter id s.votes v,
        eq_iff vote_id id,
      )

  pub expirations-kept :
      (timestamp : ℕ) (s : State) {t : State}
      → process_expirations timestamp s ≡ ok t
      → (nonce_of t.accounts who ≡ nonce_of s.accounts who)
        × (voted voter id t.votes ≡ voted voter id s.votes)
  unfolding process_expirations
  expirations-kept timestamp s h =
      let (s1, e1, h1) = >>=-eq-ok _ _ h in
      let (nonce, votes) = process_expirations-nonce who timestamp s1 h1 in
      let (before, same) = close_votes-kept timestamp _ s e1 in
      (nonce ∙ before, ap (voted voter id) votes ∙ same)

module _ (who : String) where
  handle-nonce :
      (p : Payload) (hash : String) (ctx : Context) (from : String) (s : State) {t : State}
      {rs : List Receipt}
      → handle p hash ctx from s ≡ ok (t, rs)
      → nonce_of t.accounts who ≡ nonce_of s.accounts who
  handle-nonce p hash ctx from s h = (handle-kept who who who p hash ctx from s h).0

  pub expirations-nonce :
      (timestamp : ℕ) (s : State) {t : State}
      → process_expirations timestamp s ≡ ok t
      → nonce_of t.accounts who ≡ nonce_of s.accounts who
  expirations-nonce timestamp s h = (expirations-kept who who who timestamp s h).0

-- A sender's own transaction was applied: its nonce is behind the account's.
pub record Spent (lib : CryptoLib) (tx : Transaction) (s : State) : Type 0 where
  pub from : String
  pub sender_eq : sender_of lib tx ≡ some from
  pub signed : is_coinbase tx.payload ≡ false
  pub behind : tx.nonce < nonce_of s.accounts from

-- No account's nonce is behind the earlier one.
abbrev pub Grows : State → State → Type 0
Grows s t = (who : String) → nonce_of s.accounts who ≤ nonce_of t.accounts who

module _ (lib : CryptoLib) where
  pub Spent-Grows : (tx : Transaction) (s t : State) → Spent lib tx s → Grows s t → Spent lib tx t
  Spent-Grows tx s t w g = record {
    from = w.from;
    sender_eq = w.sender_eq;
    signed = w.signed;
    behind = omega (arith, w.behind, g w.from);
  }

  -- What is spent is refused.
  pub apply_transaction-Spent :
      (tx : Transaction) (ctx : Context) (s : State)
      → Spent lib tx s
      → apply_transaction lib tx ctx s ≡ err bad_nonce
  unfolding apply_transaction ◌>>=◌
  apply_transaction-Spent tx ctx s w =
      ground (arith, w.sender_eq, w.signed, w.behind, get_account-nonce s w.from)

  module _ (tx : Transaction) (ctx : Context) (s : State) {t : State} {rs : List Receipt} where
    -- A transaction that applies moves the nonce of its sender on by one, and no other nonce.
    pub apply_transaction-nonce :
        apply_transaction lib tx ctx s ≡ ok (t, rs)
        → (from : String) × (sender_of lib tx ≡ some from)
          × (tx.nonce ≡ nonce_of s.accounts from)
          × (is_coinbase tx.payload ≡ false)
          × ((who : String)
              → nonce_of t.accounts who
                ≡ (if str_eq from who then tx.nonce + 1 else nonce_of s.accounts who))
    unfolding apply_transaction set_account
    apply_transaction-nonce h =
        let (u1, g1, h1) = >>=-eq-ok _ _ h in
        let (from, g2, h2) = >>=-eq-ok _ _ h1 in
        let (u3, g3, h3) = >>=-eq-ok _ _ h2 in
        let (s1, e1, h4) = >>=-eq-ok _ _ h3 in
        let a = get_account s1 from in
        let b : Account = record a { nonce = a.nonce + 1 } in
        (
          from,
          ground arith,
          ground (arith, get_account-nonce s from),
          ground arith,
          λ who. ground (
            arith,
            get_account-nonce s from,
            get_account-nonce s1 from,
            debit_native-nonce from from tx.fee s e1,
            debit_native-nonce who from tx.fee s e1,
            nonce_of-put who from b s1.accounts,
            handle-nonce who tx.payload tx.hash ctx from _ h4,
          ),
        )

    pub apply_transaction-Grows : apply_transaction lib tx ctx s ≡ ok (t, rs) → Grows s t
    apply_transaction-Grows h who =
        let (from, e, n, c, k) = apply_transaction-nonce h in
        ground (arith, k who, n, eq_iff from who)

    pub new_Spent : apply_transaction lib tx ctx s ≡ ok (t, rs) → Spent lib tx t
    new_Spent h =
        let (from, e, n, c, k) = apply_transaction-nonce h in
        record {
          from = from;
          sender_eq = e;
          signed = c;
          behind = ground (arith, k from, eq_iff from from);
        }
