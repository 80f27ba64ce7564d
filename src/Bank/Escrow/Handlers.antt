-- ===== src/Bank/Escrow/Handlers.antt =====
-- The handlers of contracts keep what the bank holds in step with the contracts.
use mineverse.Prelude.{ℕ, ◌+◌, String, ◌≡◌, some, none, true, arith, ok, >>=-eq-ok, Option}
use mineverse.Config.{contract_accept_window_ms}
use mineverse.Dict
use mineverse.Records.{ContractStatus, Contract, Context, State}
use mineverse.Ledger.{minus, checked_add}
use mineverse.Ledger.Supply.{debit_native-MovesCoin}
use mineverse.Bank.Contracts.{
  create_contract, accept_contract, reject_contract, cancel_contract, resolve_contract,
  text_or_empty, is_proposed, is_active,
}
use mineverse.Bank.Escrow.{
  proposed_cost, active_cost, KeepsEscrow, refund_contract-Escrow, settle_contract-Escrow,
}

is_proposed-eq : (st : ContractStatus) → is_proposed st ≡ true → st ≡ ContractStatus.proposed
is_proposed-eq st h = ground arith

is_active-eq : (st : ContractStatus) → is_active st ≡ true → st ≡ ContractStatus.active
is_active-eq st h = ground arith

module _ (ctx : Context) (from : String) (s : State) {t : State} where
  pub create_contract-Escrow :
      (contractee : String) (cost : ℕ) (terms : Option String) (duration_ms : ℕ) (hash : String)
      → create_contract contractee cost terms duration_ms hash ctx from s ≡ ok t
      → KeepsEscrow s t
  unfolding create_contract checked_add
  create_contract-Escrow contractee cost terms duration_ms hash h =
      let (u, g1, h1) = >>=-eq-ok _ _ h in
      let (v, g2, h2) = >>=-eq-ok _ _ h1 in
      let (s1, e1, h3) = >>=-eq-ok _ _ h2 in
      let (p, e2, h4) = >>=-eq-ok _ _ h3 in
      let made : Contract = record {
        id = hash;
        contracter = from;
        contractee = contractee;
        cost = cost;
        terms = text_or_empty terms;
        status = ContractStatus.proposed;
        running = true;
        created_at = ctx.timestamp;
        duration_ms = duration_ms;
        accept_deadline = ctx.timestamp + contract_accept_window_ms;
        accepted_at = none;
        end_time = none;
        settled_at = none;
        settlement = none;
        interest = 0;
      } in
      ground (
        arith,
        debit_native-MovesCoin _ _ _ e1,
        Dict.total-put proposed_cost s.contracts hash made,
        Dict.total-put active_cost s.contracts hash made,
      )

module _ (id : String) (ctx : Context) (from : String) (s : State) {t : State} where
  pub accept_contract-Escrow : accept_contract id ctx from s ≡ ok t → KeepsEscrow s t
  unfolding accept_contract minus checked_add
  accept_contract-Escrow h =
      let (c, g1, h1) = >>=-eq-ok _ _ h in
      let (u2, g2, h2) = >>=-eq-ok _ _ h1 in
      let (u3, g3, h3) = >>=-eq-ok _ _ h2 in
      let (u4, g4, h4) = >>=-eq-ok _ _ h3 in
      let (p, g5, h5) = >>=-eq-ok _ _ h4 in
      let (v, g6, h6) = >>=-eq-ok _ _ h5 in
      let accepted : Contract = record c {
        status = ContractStatus.active;
        accepted_at = some ctx.timestamp;
        end_time = some (ctx.timestamp + c.duration_ms);
      } in
      ground (
        arith,
        Dict.total-put proposed_cost s.contracts id accepted,
        Dict.total-put active_cost s.contracts id accepted,
      )

  pub reject_contract-Escrow : reject_contract id ctx from s ≡ ok t → KeepsEscrow s t
  unfolding reject_contract
  reject_contract-Escrow h =
      let (c, g1, h1) = >>=-eq-ok _ _ h in
      let (u, g2, h2) = >>=-eq-ok _ _ h1 in
      let (v, g3, h3) = >>=-eq-ok _ _ h2 in
      refund_contract-Escrow id c ctx.timestamp _ s (ground arith) (is_proposed-eq _ (ground arith))
        h3

  pub cancel_contract-Escrow : cancel_contract id ctx from s ≡ ok t → KeepsEscrow s t
  unfolding cancel_contract
  cancel_contract-Escrow h =
      let (c, g1, h1) = >>=-eq-ok _ _ h in
      let (u, g2, h2) = >>=-eq-ok _ _ h1 in
      let (v, g3, h3) = >>=-eq-ok _ _ h2 in
      refund_contract-Escrow id c ctx.timestamp _ s (ground arith) (is_proposed-eq _ (ground arith))
        h3

  pub resolve_contract-Escrow : resolve_contract id ctx from s ≡ ok t → KeepsEscrow s t
  unfolding resolve_contract
  resolve_contract-Escrow h =
      let (c, g1, h1) = >>=-eq-ok _ _ h in
      let (u, g2, h2) = >>=-eq-ok _ _ h1 in
      let (v, g3, h3) = >>=-eq-ok _ _ h2 in
      settle_contract-Escrow id c ctx.timestamp _ s (ground arith) (is_active-eq _ (ground arith))
        h3
