-- ===== src/Genesis/Allocated.antt =====
-- The coin that `genesisState` of src/core/genesis.js puts into the accounts.
use mineverse.Prelude.{
  ℕ, ◌+◌, ◌≤◌, ◌<◌, String, List, [], ◌∷◌, some, ◌≡◌, refl, ap, ◌∙◌, arith, eq_iff, str_eq,
  if◌then◌else◌,
}
use mineverse.Dict
use mineverse.Dict.{Dict}
use mineverse.Records.{Account, Bank, State, empty_bank, empty_state}
use mineverse.Ledger.{get_account, set_account, held}
use mineverse.Ledger.Supply.{coin_of_account, coin_of_currency, coin_of_company, supply}
use mineverse.Genesis.{Genesis, allocate, genesis_state}

-- The coin of an account, 0 where there is none.
abbrev coin_at : State → String → ℕ
coin_at s k = Dict.weight_at coin_of_account s.accounts k

coin_at-set_account :
    (s : State) (k j : String) (a : Account)
    → coin_at (set_account s k a) j ≡ (if str_eq k j then a.balance else coin_at s j)
unfolding set_account
coin_at-set_account s k j a = ground (arith, Dict.get-put s.accounts k j a)

total-set_account :
    (s : State) (k : String) (a : Account)
    → Dict.total coin_of_account (set_account s k a).accounts + coin_at s k
      ≡ Dict.total coin_of_account s.accounts + a.balance
unfolding set_account
total-set_account s k a = Dict.total-put coin_of_account s.accounts k a

module _ (allocations : Dict ℕ) where
  -- Distinct addresses without coin get what is allocated to them.
  allocate-total :
      (addresses : List String) (s : State)
      → ((k : String) → Dict.count k addresses ≤ 1)
      → ((k : String) → 0 < Dict.count k addresses → coin_at s k ≡ 0)
      → Dict.total coin_of_account (allocate allocations addresses s).accounts
        ≡ Dict.total coin_of_account s.accounts + Dict.sum_over (held allocations) addresses
  unfolding allocate Dict.count Dict.sum_over
  allocate-total [] s once new = omega arith
  allocate-total (address ∷ addresses) s once new =
      let a : Account = record (get_account s address) { balance = held allocations address } in
      let here : coin_at s address ≡ 0 = new address (ground (arith, eq_iff address address)) in
      let only : Dict.count address addresses ≤ 0 =
        ground (arith, once address, eq_iff address address) in
      let rest =
        allocate-total addresses (set_account s address a) (λ k. ground (arith, once k))
          (λ k some_times. ground (
            arith,
            only,
            some_times,
            coin_at-set_account s address k a,
            eq_iff address k,
            new k,
          )) in
      omega (arith, here, rest, total-set_account s address a)

  -- The other parts of the state are left alone.
  allocate-rest :
      (addresses : List String) (s : State)
      → ((allocate allocations addresses s).currencies ≡ s.currencies)
        × ((allocate allocations addresses s).companies ≡ s.companies)
        × ((allocate allocations addresses s).bank ≡ s.bank)
  unfolding allocate set_account
  allocate-rest [] s = (refl, refl, refl)
  allocate-rest (address ∷ addresses) s = allocate-rest addresses _

  held-value : (k : String) (n : ℕ) → Dict.get allocations k ≡ some n → held allocations k ≡ n
  unfolding held
  held-value k n e = ground arith

  sum_of_sorted :
      Dict.sum_over (held allocations) (Dict.sort_keys (Dict.keys allocations))
      ≡ Dict.total (λ n. n) allocations
  sum_of_sorted =
      Dict.sum_over-sort_keys (held allocations) (Dict.keys allocations)
      ∙ Dict.sum_over-keys (held allocations) allocations held-value

-- The supply of the genesis state is the sum of the allocations.
pub supply-genesis_state :
    (genesis : Genesis) → supply (genesis_state genesis) ≡ Dict.total (λ n. n) genesis.allocations
unfolding genesis_state empty_state empty_bank
supply-genesis_state genesis =
    let allocations = genesis.allocations in
    let keys = Dict.sort_keys (Dict.keys allocations) in
    let (currencies, companies, bank) = allocate-rest allocations keys empty_state in
    let given =
      allocate-total allocations keys empty_state
        (λ k.
          omega
            (arith, Dict.count-sort_keys k (Dict.keys allocations), Dict.count-keys allocations k))
        (λ k h. ground (arith, Dict.get-empty {V = Account} k)) in
    omega (
      arith,
      given,
      sum_of_sorted allocations,
      Dict.total-empty coin_of_account,
      Dict.total-empty coin_of_currency,
      Dict.total-empty coin_of_company,
      ap (Dict.total coin_of_currency) currencies,
      ap (Dict.total coin_of_company) companies,
      ap (λ (b : Bank). b.pending + b.vault + b.treasury) bank,
    )

pub genesis_state-interest : (genesis : Genesis) → (genesis_state genesis).bank.interest_paid ≡ 0
unfolding genesis_state empty_state empty_bank
genesis_state-interest genesis =
    let keys = Dict.sort_keys (Dict.keys genesis.allocations) in
    let (currencies, companies, bank) = allocate-rest genesis.allocations keys empty_state in
    ap (λ (b : Bank). b.interest_paid) bank
