-- ===== src/Bank/Nonces.antt =====
-- The operations of the bank leave the nonces of accounts and the votes alone.
use mineverse.Dict
use mineverse.Prelude.{
  Option-cases, inl, inr, ℕ, String, ◌≡◌, List, [], ◌∷◌, arith, ok, ◌>>=◌, >>=-eq-ok, Option,
}
use mineverse.Records.{ContractStatus, Settlement, Contract, Context, State}
use mineverse.Ledger.{minus, checked_add}
use mineverse.Bank.{
  credit_treasury, credit_treasury_asset, mint_interest, settle_contract, refund_contract,
  expire_contract, expire_id, expire_ids, process_expirations,
}
use mineverse.Bank.Contracts.{
  create_contract, accept_contract, reject_contract, cancel_contract, resolve_contract,
}
use mineverse.Ledger.Nonces.{KeepsNonce, credit_native-nonce, debit_native-nonce}

module _ (who : String) where
  pub credit_treasury-nonce :
      (n : ℕ) (s : State) {t : State} → credit_treasury n s ≡ ok t → KeepsNonce who s t
  unfolding credit_treasury checked_add ◌>>=◌
  credit_treasury-nonce n s h = ground arith

  pub credit_treasury_asset-nonce :
      (symbol : String) (n : ℕ) (s : State) {t : State}
      → credit_treasury_asset symbol n s ≡ ok t
      → KeepsNonce who s t
  unfolding credit_treasury_asset checked_add ◌>>=◌
  credit_treasury_asset-nonce symbol n s {t} h = ground (arith, credit_treasury-nonce n s {t = t})

  mint_interest-nonce :
      (n : ℕ) (s : State) {t : State} → mint_interest n s ≡ ok t → KeepsNonce who s t
  unfolding mint_interest checked_add ◌>>=◌
  mint_interest-nonce n s h = ground arith

  module _ (id : String) (c : Contract) (timestamp : ℕ) where
    pub refund_contract-nonce :
        (how : Settlement) (s : State) {t : State}
        → refund_contract id c timestamp how s ≡ ok t
        → KeepsNonce who s t
    unfolding refund_contract minus
    refund_contract-nonce how s h =
        let (p, e, h1) = >>=-eq-ok _ _ h in
        let (s1, e1, h2) = >>=-eq-ok _ _ h1 in ground (arith, credit_native-nonce who _ _ _ e1)

    pub settle_contract-nonce :
        (how : Settlement) (s : State) {t : State}
        → settle_contract id c timestamp how s ≡ ok t
        → KeepsNonce who s t
    unfolding settle_contract minus
    settle_contract-nonce how s h =
        let (v, e, h1) = >>=-eq-ok _ _ h in
        let (s1, e1, h2) = >>=-eq-ok _ _ h1 in
        let (i, e2, h3) = >>=-eq-ok _ _ h2 in
        let (s2, e3, h4) = >>=-eq-ok _ _ h3 in
        ground (arith, credit_native-nonce who _ _ _ e1, mint_interest-nonce _ _ e3)

    expire_contract-nonce :
        (status : ContractStatus) (s : State) {t : State}
        → expire_contract id c status timestamp s ≡ ok t
        → KeepsNonce who s t
    unfolding expire_contract
    expire_contract-nonce ContractStatus.proposed s {t} h =
        ground (arith, refund_contract-nonce Settlement.expired s {t = t})
    expire_contract-nonce ContractStatus.active s {t} h =
        ground (arith, settle_contract-nonce Settlement.expired s {t = t})
    expire_contract-nonce _ s h = ground arith

  module _ (timestamp : ℕ) where
    expire_id-nonce :
        (id : String) (s : State) {t : State} → expire_id timestamp id s ≡ ok t → KeepsNonce who s t
    unfolding expire_id
    expire_id-nonce id s {t} h = elim (Option-cases (Dict.get s.contracts id)) [
      | inl e ↦ ground arith
      | inr (c, e) ↦ ground (arith, expire_contract-nonce id c timestamp c.status s {t = t})
    ]

    expire_ids-nonce :
        (ids : List String) (s : State) {t : State}
        → expire_ids timestamp ids s ≡ ok t
        → KeepsNonce who s t
    unfolding expire_ids
    expire_ids-nonce [] s h = ground arith
    expire_ids-nonce (id ∷ ids) s h =
        let (s1, e1, h1) = >>=-eq-ok _ _ h in
        ground (arith, expire_id-nonce id s e1, expire_ids-nonce ids s1 h1)

    pub process_expirations-nonce :
        (s : State) {t : State} → process_expirations timestamp s ≡ ok t → KeepsNonce who s t
    unfolding process_expirations
    process_expirations-nonce s h = expire_ids-nonce _ s h

  module _ (ctx : Context) (from : String) (s : State) {t : State} where
    pub create_contract-nonce :
        (contractee : String) (cost : ℕ) (terms : Option String) (duration_ms : ℕ) (hash : String)
        → create_contract contractee cost terms duration_ms hash ctx from s ≡ ok t
        → KeepsNonce who s t
    unfolding create_contract checked_add
    create_contract-nonce contractee cost terms duration_ms hash h =
        let (u, g1, h1) = >>=-eq-ok _ _ h in
        let (v, g2, h2) = >>=-eq-ok _ _ h1 in
        let (s1, e1, h3) = >>=-eq-ok _ _ h2 in
        let (p, e2, h4) = >>=-eq-ok _ _ h3 in ground (arith, debit_native-nonce who _ _ _ e1)

  module _ (id : String) (ctx : Context) (from : String) (s : State) {t : State} where
    pub accept_contract-nonce : accept_contract id ctx from s ≡ ok t → KeepsNonce who s t
    unfolding accept_contract minus checked_add ◌>>=◌
    accept_contract-nonce h = ground arith

    pub reject_contract-nonce : reject_contract id ctx from s ≡ ok t → KeepsNonce who s t
    unfolding reject_contract
    reject_contract-nonce h =
        let (c, g1, h1) = >>=-eq-ok _ _ h in
        let (u, g2, h2) = >>=-eq-ok _ _ h1 in
        let (v, g3, h3) = >>=-eq-ok _ _ h2 in refund_contract-nonce id c ctx.timestamp _ s h3

    pub cancel_contract-nonce : cancel_contract id ctx from s ≡ ok t → KeepsNonce who s t
    unfolding cancel_contract
    cancel_contract-nonce h =
        let (c, g1, h1) = >>=-eq-ok _ _ h in
        let (u, g2, h2) = >>=-eq-ok _ _ h1 in
        let (v, g3, h3) = >>=-eq-ok _ _ h2 in refund_contract-nonce id c ctx.timestamp _ s h3

    pub resolve_contract-nonce : resolve_contract id ctx from s ≡ ok t → KeepsNonce who s t
    unfolding resolve_contract
    resolve_contract-nonce h =
        let (c, g1, h1) = >>=-eq-ok _ _ h in
        let (u, g2, h2) = >>=-eq-ok _ _ h1 in
        let (v, g3, h3) = >>=-eq-ok _ _ h2 in settle_contract-nonce id c ctx.timestamp _ s h3
