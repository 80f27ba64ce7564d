-- ===== src/Bank/Contracts.antt =====
-- The handlers of src/core/bank.js: the life of a contract.
use mineverse.Prelude.{
  ◌+◌, ℕ, String, true, Bool, false, Option, none, some, leb, not, str_eq, ok, ◌>>=◌, ◌>>◌, fail_if,
  require,
}
use mineverse.Config.{contract_accept_window_ms}
use mineverse.Dict
use mineverse.Records.{
  ContractStatus, Settlement, Context, State, contract_already_exists, contract_with_yourself,
  unknown_contract, contract_not_open, contract_not_settleable, not_the_contractee,
  not_the_contracter, acceptance_window_has_closed,
}
use mineverse.Ledger.{Call, checked_add, minus, debit_native}
use mineverse.Bank.{set_contract, settle_contract, refund_contract}

abbrev pub is_proposed : ContractStatus → Bool
is_proposed ContractStatus.proposed = true
is_proposed _ = false

abbrev pub is_active : ContractStatus → Bool
is_active ContractStatus.active = true
is_active _ = false

-- `state.contracts[key]` as a condition
abbrev pub is_some {ℓ} : {A : Type ℓ} → Option A → Bool
is_some none = false
is_some (some a) = true

-- `typeof value === "string" ? value : ""`
abbrev pub text_or_empty : Option String → String
text_or_empty none = ""
text_or_empty (some t) = t

unfoldable pub create_contract :
    String → ℕ → Option String → ℕ → String → Context → String → State → Call State
create_contract contractee cost terms duration_ms hash ctx from s = do
  fail_if (is_some (Dict.get s.contracts hash)) contract_already_exists
  fail_if (str_eq contractee from) contract_with_yourself
  s1 ← debit_native from cost s
  pending ← checked_add s1.bank.pending cost
  ok (
      set_contract hash
        (record {
          id = hash;
          contracter = from;
          contractee = contractee;
          cost = cost;
          terms = text_or_empty terms;
          status = ContractStatus.proposed;
          running = true;
          created_at = ctx.timestamp;
          duration_ms = duration_ms;
          accept_deadline = ctx.timestamp + contract_accept_window_ms;
          accepted_at = none;
          end_time = none;
          settled_at = none;
          settlement = none;
          interest = 0;
        })
        (record s1 { bank = record s1.bank { pending = pending } }))

unfoldable pub accept_contract : String → Context → String → State → Call State
accept_contract id ctx from s = do
  c ← require (Dict.get s.contracts id) unknown_contract
  fail_if (not (is_proposed c.status)) contract_not_open
  fail_if (not (str_eq c.contractee from)) not_the_contractee
  fail_if (leb c.accept_deadline ctx.timestamp) acceptance_window_has_closed
  pending ← minus s.bank.pending c.cost
  vault ← checked_add s.bank.vault c.cost
  ok (
      set_contract id
        (record c {
          status = ContractStatus.active;
          accepted_at = some ctx.timestamp;
          end_time = some (ctx.timestamp + c.duration_ms);
        })
        (record s { bank = record s.bank { pending = pending; vault = vault } }))

unfoldable pub reject_contract : String → Context → String → State → Call State
reject_contract id ctx from s = do
  c ← require (Dict.get s.contracts id) unknown_contract
  fail_if (not (is_proposed c.status)) contract_not_open
  fail_if (not (str_eq c.contractee from)) not_the_contractee
  refund_contract id c ctx.timestamp Settlement.rejected s

unfoldable pub cancel_contract : String → Context → String → State → Call State
cancel_contract id ctx from s = do
  c ← require (Dict.get s.contracts id) unknown_contract
  fail_if (not (is_proposed c.status)) contract_not_open
  fail_if (not (str_eq c.contracter from)) not_the_contracter
  refund_contract id c ctx.timestamp Settlement.cancelled s

unfoldable pub resolve_contract : String → Context → String → State → Call State
resolve_contract id ctx from s = do
  c ← require (Dict.get s.contracts id) unknown_contract
  fail_if (not (is_active c.status)) contract_not_settleable
  fail_if (not (str_eq c.contracter from)) not_the_contracter
  settle_contract id c ctx.timestamp Settlement.resolved s
