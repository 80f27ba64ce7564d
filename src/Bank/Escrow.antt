-- ===== src/Bank/Escrow.antt =====
-- What the bank holds for contracts, against the contracts.
pub mod Handlers
use mineverse.Prelude.{
  ℕ, ◌+◌, ◌<◌, String, ◌≡◌, List, [], ◌∷◌, refl, some, not, arith, ok, fail_if, ◌>>=◌, >>=-eq-ok,
  Option, none, Bool, true, false, Option-cases, inl, inr,
}
use mineverse.Dict
use mineverse.Records.{ContractStatus, Settlement, Contract, Context, State, StateError}
use mineverse.Ledger.{minus, checked_add}
use mineverse.Ledger.Supply.{credit_native-MovesCoin, debit_native-MovesCoin}
use mineverse.Bank.{
  credit_treasury, credit_treasury_asset, mint_interest, settle_contract, refund_contract,
  expire_contract, expire_id, expire_ids, process_expirations, set_contract, refund_status,
}
use mineverse.Bank.Contracts.{
  create_contract, accept_contract, reject_contract, cancel_contract, resolve_contract,
}

-- The part of a cost that is held while a contract is proposed, and while it is active.
abbrev pub proposed_part : ContractStatus → ℕ → ℕ
proposed_part ContractStatus.proposed n = n
proposed_part _ n = 0

abbrev pub active_part : ContractStatus → ℕ → ℕ
active_part ContractStatus.active n = n
active_part _ n = 0

abbrev pub proposed_cost : Contract → ℕ
proposed_cost c = proposed_part c.status c.cost

abbrev pub active_cost : Contract → ℕ
active_cost c = active_part c.status c.cost

-- The bank holds the costs of the proposed contracts as pending, and those of the active ones in
-- its vault.
pub record IsEscrowed (s : State) : Type 0 where
  pub pending : s.bank.pending ≡ Dict.total proposed_cost s.contracts
  pub vault : s.bank.vault ≡ Dict.total active_cost s.contracts

-- What the bank holds and what it should hold change by the same.
pub record KeepsEscrow (s t : State) : Type 0 where
  pub pending :
      t.bank.pending + Dict.total proposed_cost s.contracts
      ≡ s.bank.pending + Dict.total proposed_cost t.contracts
  pub vault :
      t.bank.vault + Dict.total active_cost s.contracts
      ≡ s.bank.vault + Dict.total active_cost t.contracts

pub KeepsEscrow-IsEscrowed : (s t : State) → KeepsEscrow s t → IsEscrowed s → IsEscrowed t
KeepsEscrow-IsEscrowed s t k w = record {
  pending = omega (arith, k.pending, w.pending);
  vault = omega (arith, k.vault, w.vault);
}

pub KeepsEscrow-trans : (s t u : State) → KeepsEscrow s t → KeepsEscrow t u → KeepsEscrow s u
KeepsEscrow-trans s t u k l = record {
  pending = omega (arith, k.pending, l.pending);
  vault = omega (arith, k.vault, l.vault);
}

pub credit_treasury-Escrow :
    (n : ℕ) (s : State) {t : State} → credit_treasury n s ≡ ok t → KeepsEscrow s t
unfolding credit_treasury checked_add ◌>>=◌
credit_treasury-Escrow n s h = ground arith

pub credit_treasury_asset-Escrow :
    (symbol : String) (n : ℕ) (s : State) {t : State}
    → credit_treasury_asset symbol n s ≡ ok t
    → KeepsEscrow s t
unfolding credit_treasury_asset checked_add ◌>>=◌
credit_treasury_asset-Escrow symbol n s {t} h = ground (arith, credit_treasury-Escrow n s {t = t})

-- Interest changes neither the contracts nor what is held for them.
mint_interest-escrow :
    (n : ℕ) (s : State) {t : State}
    → mint_interest n s ≡ ok t
    → (t.contracts ≡ s.contracts)
      × (t.bank.pending ≡ s.bank.pending)
      × (t.bank.vault ≡ s.bank.vault)
unfolding mint_interest checked_add ◌>>=◌
mint_interest-escrow n s h = ground arith

refund_status-part :
    (how : Settlement) (n : ℕ)
    → (proposed_part (refund_status how) n ≡ 0) × (active_part (refund_status how) n ≡ 0)
refund_status-part Settlement.resolved n = (refl, refl)
refund_status-part Settlement.expired n = (refl, refl)
refund_status-part Settlement.rejected n = (refl, refl)
refund_status-part Settlement.cancelled n = (refl, refl)

module _ (id : String) (c : Contract) (timestamp : ℕ) where
  pub refund_contract-Escrow :
      (how : Settlement) (s : State) {t : State}
      → Dict.get s.contracts id ≡ some c
      → c.status ≡ ContractStatus.proposed
      → refund_contract id c timestamp how s ≡ ok t
      → KeepsEscrow s t
  unfolding refund_contract minus
  refund_contract-Escrow how s k st h =
      let (p, e, h1) = >>=-eq-ok _ _ h in
      let (s1, e1, h2) = >>=-eq-ok _ _ h1 in
      let after : Contract = record c {
        status = refund_status how;
        running = false;
        settled_at = some timestamp;
        settlement = some how;
      } in
      ground (
        arith,
        credit_native-MovesCoin _ _ _ e1,
        refund_status-part how c.cost,
        Dict.total-put proposed_cost s.contracts id after,
        Dict.total-put active_cost s.contracts id after,
      )

  pub settle_contract-Escrow :
      (how : Settlement) (s : State) {t : State}
      → Dict.get s.contracts id ≡ some c
      → c.status ≡ ContractStatus.active
      → settle_contract id c timestamp how s ≡ ok t
      → KeepsEscrow s t
  unfolding settle_contract minus
  settle_contract-Escrow how s k st h =
      let (v, e, h1) = >>=-eq-ok _ _ h in
      let (s1, e1, h2) = >>=-eq-ok _ _ h1 in
      let (i, e2, h3) = >>=-eq-ok _ _ h2 in
      let (s2, e3, h4) = >>=-eq-ok _ _ h3 in
      let after : Contract = record c {
        interest = i;
        status = ContractStatus.settled;
        running = false;
        settled_at = some timestamp;
        settlement = some how;
      } in
      ground (
        arith,
        credit_native-MovesCoin _ _ _ e1,
        mint_interest-escrow _ _ e3,
        Dict.total-put proposed_cost s.contracts id after,
        Dict.total-put active_cost s.contracts id after,
      )

  expire_contract-Escrow :
      (status : ContractStatus) (s : State) {t : State}
      → Dict.get s.contracts id ≡ some c
      → c.status ≡ status
      → expire_contract id c status timestamp s ≡ ok t
      → KeepsEscrow s t
  unfolding expire_contract
  expire_contract-Escrow ContractStatus.proposed s {t} k st h =
      ground (arith, refund_contract-Escrow Settlement.expired s {t = t} k st)
  expire_contract-Escrow ContractStatus.active s {t} k st h =
      ground (arith, settle_contract-Escrow Settlement.expired s {t = t} k st)
  expire_contract-Escrow _ s k st h = ground arith

module _ (timestamp : ℕ) where
  expire_id-Escrow :
      (id : String) (s : State) {t : State} → expire_id timestamp id s ≡ ok t → KeepsEscrow s t
  unfolding expire_id
  expire_id-Escrow id s h = elim (Option-cases (Dict.get s.contracts id)) [
    | inl e ↦ absurd (ground arith)
    | inr (c, e) ↦ expire_contract-Escrow id c timestamp c.status s e refl (ground arith)
  ]

  expire_ids-Escrow :
      (ids : List String) (s : State) {t : State}
      → expire_ids timestamp ids s ≡ ok t
      → KeepsEscrow s t
  unfolding expire_ids
  expire_ids-Escrow [] s h = ground arith
  expire_ids-Escrow (id ∷ ids) s h =
      let (s1, e1, h1) = >>=-eq-ok _ _ h in
      KeepsEscrow-trans s s1 _ (expire_id-Escrow id s e1) (expire_ids-Escrow ids s1 h1)

  pub process_expirations-Escrow :
      (s : State) {t : State} → process_expirations timestamp s ≡ ok t → KeepsEscrow s t
  unfolding process_expirations
  process_expirations-Escrow s h = expire_ids-Escrow _ s h
