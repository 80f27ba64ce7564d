-- ===== src/Bank.antt =====
-- src/core/bank.js: the bank, and the contracts that it holds funds for.
pub mod Contracts
pub mod Escrow
pub mod Nonces
pub mod Supply
use mineverse.Prelude.{
  ℕ, ◌+◌, ◌-◌, ◌*◌, ◌/◌, min, String, false, Option, none, some, List, [], ◌∷◌, ltb, leb, ◌==◌,
  str_eq, if◌then◌else◌, ok, err, ◌>>=◌, ◌>>◌, fail_if,
}
use mineverse.Config.{
  native, max_amount, bank_interest_apr_bps, max_contract_duration_ms, ms_per_year,
}
use mineverse.Dict
use mineverse.Records.{ContractStatus, Settlement, Contract, State, type_error, interest_overflow}
use mineverse.Ledger.{Call, checked_add, minus, held, credit_native}

-- An elapsed time that is negative in the source is 0 here: both earn nothing.
unfoldable pub accrued_interest : ℕ → ℕ → Call ℕ
accrued_interest principal elapsed_ms =
    if principal == 0 then ok 0 else if elapsed_ms == 0 then ok 0 else (do
      let capped = min elapsed_ms max_contract_duration_ms
      let earned = principal * bank_interest_apr_bps * capped / (10000 * ms_per_year)
      fail_if (ltb max_amount earned) interest_overflow
      ok earned)

unfoldable pub credit_treasury : ℕ → State → Call State
credit_treasury amount s = if amount == 0 then ok s else (do
  treasury ← checked_add s.bank.treasury amount
  ok (record s { bank = record s.bank { treasury = treasury } }))

unfoldable pub credit_treasury_asset : String → ℕ → State → Call State
credit_treasury_asset symbol amount s =
    if amount == 0 then ok s else if str_eq symbol native then credit_treasury amount s else (do
      total ← checked_add (held s.bank.tokens symbol) amount
      ok (record s { bank = record s.bank { tokens = Dict.put s.bank.tokens symbol total } }))

unfoldable pub mint_interest : ℕ → State → Call State
mint_interest amount s = if amount == 0 then ok s else (do
  treasury ← checked_add s.bank.treasury amount
  interest_paid ← checked_add s.bank.interest_paid amount
  ok (record s { bank = record s.bank { treasury = treasury; interest_paid = interest_paid } }))

-- A field that is `null` counts as 0 in arithmetic.
abbrev pub or_zero : Option ℕ → ℕ
or_zero none = 0
or_zero (some n) = n

abbrev pub set_contract : String → Contract → State → State
set_contract id c s = record s { contracts = Dict.put s.contracts id c }

-- `contract` is the record that `state.contracts` holds under `id`.
unfoldable pub settle_contract : String → Contract → ℕ → Settlement → State → Call State
settle_contract id c timestamp settlement s = do
  vault ← minus s.bank.vault c.cost
  s1 ← credit_native c.contractee c.cost (record s { bank = record s.bank { vault = vault } })
  interest ← accrued_interest c.cost (timestamp - or_zero c.accepted_at)
  s2 ← mint_interest interest s1
  ok (
      set_contract id
        (record c {
          interest = interest;
          status = ContractStatus.settled;
          running = false;
          settled_at = some timestamp;
          settlement = some settlement;
        })
        s2)

-- The status that a settlement leaves behind.
abbrev pub refund_status : Settlement → ContractStatus
refund_status Settlement.expired = ContractStatus.expired
refund_status Settlement.rejected = ContractStatus.rejected
refund_status Settlement.cancelled = ContractStatus.cancelled
refund_status Settlement.resolved = ContractStatus.settled

unfoldable pub refund_contract : String → Contract → ℕ → Settlement → State → Call State
refund_contract id c timestamp settlement s = do
  pending ← minus s.bank.pending c.cost
  s1 ← credit_native c.contracter c.cost (record s { bank = record s.bank { pending = pending } })
  ok (
      set_contract id
        (record c {
          status = refund_status settlement;
          running = false;
          settled_at = some timestamp;
          settlement = some settlement;
        })
        s1)

-- What expiry does to one contract, by its status.
unfoldable pub expire_contract : String → Contract → ContractStatus → ℕ → State → Call State
expire_contract id c ContractStatus.proposed timestamp s =
    if leb c.accept_deadline timestamp
    then refund_contract id c timestamp Settlement.expired s
    else ok s
expire_contract id c ContractStatus.active timestamp s =
    if leb (or_zero c.end_time) timestamp
    then settle_contract id c timestamp Settlement.expired s
    else ok s
expire_contract id c _ timestamp s = ok s

-- One round of the loop; the id is a key, so a contract is found.
unfoldable pub expire_id : ℕ → String → State → Call State
expire_id timestamp id s = elim (Dict.get s.contracts id) [
  | none ↦ err type_error
  | some c ↦ expire_contract id c c.status timestamp s
]

unfoldable pub expire_ids : ℕ → List String → State → Call State
expire_ids timestamp [] s = ok s
expire_ids timestamp (id ∷ ids) s = do t ← expire_id timestamp id s; expire_ids timestamp ids t

-- `processExpirations`
unfoldable pub process_expirations : ℕ → State → Call State
unfolding expire_ids
process_expirations timestamp s = expire_ids timestamp (Dict.sort_keys (Dict.keys s.contracts)) s
