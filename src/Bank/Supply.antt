-- ===== src/Bank/Supply.antt =====
-- What the bank's operations do to the supply: they move coin, and mint nothing but interest.
use mineverse.Prelude.{ℕ, ◌+◌, String, ◌≡◌, List, [], ◌∷◌, arith, ok, ◌>>=◌, >>=-eq-ok, Option}
use mineverse.Records.{ContractStatus, Settlement, Contract, Context, State}
use mineverse.Ledger.{minus, checked_add}
use mineverse.Ledger.Supply.{supply, coin_part, credit_native-MovesCoin, debit_native-MovesCoin}
use mineverse.Bank.{
  credit_treasury, credit_treasury_asset, mint_interest, settle_contract, refund_contract,
  expire_contract, expire_id, expire_ids, process_expirations,
}
use mineverse.Bank.Contracts.{
  create_contract, accept_contract, reject_contract, cancel_contract, resolve_contract,
}

-- The supply grows by `got` less `paid`, and by the interest that the bank mints.
pub record Moves (paid got : ℕ) (s t : State) : Type 0 where
  pub coin : supply t + paid + s.bank.interest_paid ≡ supply s + got + t.bank.interest_paid

abbrev pub KeepsSupply : State → State → Type 0
KeepsSupply = Moves 0 0

pub Moves-refl : (s : State) → KeepsSupply s s
Moves-refl s = omega arith

pub credit_treasury-Moves :
    (n : ℕ) (s : State) {t : State} → credit_treasury n s ≡ ok t → Moves 0 n s t
unfolding credit_treasury checked_add ◌>>=◌
credit_treasury-Moves n s h = ground arith

pub credit_treasury_asset-Moves :
    (symbol : String) (n : ℕ) (s : State) {t : State}
    → credit_treasury_asset symbol n s ≡ ok t
    → Moves 0 (coin_part symbol n) s t
unfolding credit_treasury_asset checked_add ◌>>=◌
credit_treasury_asset-Moves symbol n s {t} h = ground (arith, credit_treasury-Moves n s {t = t})

mint_interest-Moves : (n : ℕ) (s : State) {t : State} → mint_interest n s ≡ ok t → KeepsSupply s t
unfolding mint_interest checked_add ◌>>=◌
mint_interest-Moves n s h = ground arith

module _ (id : String) (c : Contract) (timestamp : ℕ) where
  pub refund_contract-Moves :
      (how : Settlement) (s : State) {t : State}
      → refund_contract id c timestamp how s ≡ ok t
      → KeepsSupply s t
  unfolding refund_contract minus
  refund_contract-Moves how s h =
      let (p, e, h1) = >>=-eq-ok _ _ h in
      let (s1, e1, h2) = >>=-eq-ok _ _ h1 in ground (arith, credit_native-MovesCoin _ _ _ e1)

  pub settle_contract-Moves :
      (how : Settlement) (s : State) {t : State}
      → settle_contract id c timestamp how s ≡ ok t
      → KeepsSupply s t
  unfolding settle_contract minus
  settle_contract-Moves how s h =
      let (v, e, h1) = >>=-eq-ok _ _ h in
      let (s1, e1, h2) = >>=-eq-ok _ _ h1 in
      let (i, e2, h3) = >>=-eq-ok _ _ h2 in
      let (s2, e3, h4) = >>=-eq-ok _ _ h3 in
      ground (arith, credit_native-MovesCoin _ _ _ e1, mint_interest-Moves _ _ e3)

  expire_contract-Moves :
      (status : ContractStatus) (s : State) {t : State}
      → expire_contract id c status timestamp s ≡ ok t
      → KeepsSupply s t
  unfolding expire_contract
  expire_contract-Moves ContractStatus.proposed s h = grind (arith, refund_contract-Moves)
  expire_contract-Moves ContractStatus.active s h = grind (arith, settle_contract-Moves)
  expire_contract-Moves _ s h = ground arith

module _ (timestamp : ℕ) where
  expire_id-Moves :
      (id : String) (s : State) {t : State} → expire_id timestamp id s ≡ ok t → KeepsSupply s t
  unfolding expire_id
  expire_id-Moves id s h = grind (arith, expire_contract-Moves)

  expire_ids-Moves :
      (ids : List String) (s : State) {t : State}
      → expire_ids timestamp ids s ≡ ok t
      → KeepsSupply s t
  unfolding expire_ids
  expire_ids-Moves [] s h = ground arith
  expire_ids-Moves (id ∷ ids) s h =
      let (s1, e1, h1) = >>=-eq-ok _ _ h in
      omega (arith, expire_id-Moves id s e1, expire_ids-Moves ids s1 h1)

  pub process_expirations-Moves :
      (s : State) {t : State} → process_expirations timestamp s ≡ ok t → KeepsSupply s t
  unfolding process_expirations
  process_expirations-Moves s h = expire_ids-Moves _ s h

module _ (ctx : Context) (from : String) (s : State) {t : State} where
  pub create_contract-Moves :
      (contractee : String) (cost : ℕ) (terms : Option String) (duration_ms : ℕ) (hash : String)
      → create_contract contractee cost terms duration_ms hash ctx from s ≡ ok t
      → KeepsSupply s t
  unfolding create_contract checked_add
  create_contract-Moves contractee cost terms duration_ms hash h =
      let (u, g1, h1) = >>=-eq-ok _ _ h in
      let (v, g2, h2) = >>=-eq-ok _ _ h1 in
      let (s1, e1, h3) = >>=-eq-ok _ _ h2 in
      let (p, e2, h4) = >>=-eq-ok _ _ h3 in ground (arith, debit_native-MovesCoin _ _ _ e1)

module _ (id : String) (ctx : Context) (from : String) (s : State) {t : State} where
  pub accept_contract-Moves : accept_contract id ctx from s ≡ ok t → KeepsSupply s t
  unfolding accept_contract minus checked_add ◌>>=◌
  accept_contract-Moves h = ground arith

  pub reject_contract-Moves : reject_contract id ctx from s ≡ ok t → KeepsSupply s t
  unfolding reject_contract
  reject_contract-Moves h =
      let (c, g1, h1) = >>=-eq-ok _ _ h in
      let (u, g2, h2) = >>=-eq-ok _ _ h1 in
      let (v, g3, h3) = >>=-eq-ok _ _ h2 in refund_contract-Moves id c ctx.timestamp _ s h3

  pub cancel_contract-Moves : cancel_contract id ctx from s ≡ ok t → KeepsSupply s t
  unfolding cancel_contract
  cancel_contract-Moves h =
      let (c, g1, h1) = >>=-eq-ok _ _ h in
      let (u, g2, h2) = >>=-eq-ok _ _ h1 in
      let (v, g3, h3) = >>=-eq-ok _ _ h2 in refund_contract-Moves id c ctx.timestamp _ s h3

  pub resolve_contract-Moves : resolve_contract id ctx from s ≡ ok t → KeepsSupply s t
  unfolding resolve_contract
  resolve_contract-Moves h =
      let (c, g1, h1) = >>=-eq-ok _ _ h in
      let (u, g2, h2) = >>=-eq-ok _ _ h1 in
      let (v, g3, h3) = >>=-eq-ok _ _ h2 in settle_contract-Moves id c ctx.timestamp _ s h3
