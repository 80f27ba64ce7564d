-- ===== src/Ledger/Supply.antt =====
-- Every native coin, wherever it is parked, and what the ledger's primitives do to the sum.
use mineverse.Prelude.{ℕ, ◌+◌, ◌-◌, String, ◌≡◌, ok, ◌>>=◌, arith, str_eq, if◌then◌else◌}
use mineverse.Config.{native}
use mineverse.Dict
use mineverse.Records.{Account, Currency, Company, State}
use mineverse.Ledger.{
  checked_add, get_account, credit_native, debit_native, credit_token, debit_token, credit_asset,
  debit_asset,
}

abbrev pub coin_of_account : Account → ℕ
coin_of_account a = a.balance

abbrev pub coin_of_currency : Currency → ℕ
coin_of_currency c = c.reserve_native

abbrev pub coin_of_company : Company → ℕ
coin_of_company c = c.reserve_native + c.treasury

-- The coin of all accounts, pools and treasuries, and of the bank.
abbrev pub supply : State → ℕ
supply s =
    Dict.total coin_of_account s.accounts
    + Dict.total coin_of_currency s.currencies
    + Dict.total coin_of_company s.companies
    + (s.bank.pending + s.bank.vault + s.bank.treasury)

-- Only accounts change, and their coin goes from one sum to another.
pub record MovesCoin (s t : State) (paid got : ℕ) : Type 0 where
  pub coin : supply t + paid ≡ supply s + got
  pub currencies : t.currencies ≡ s.currencies
  pub contracts : t.contracts ≡ s.contracts
  pub companies : t.companies ≡ s.companies
  pub bank : t.bank ≡ s.bank

module _ (address : String) (n : ℕ) (s : State) {t : State} where
  pub credit_native-MovesCoin : credit_native address n s ≡ ok t → MovesCoin s t 0 n
  unfolding credit_native checked_add ◌>>=◌
  credit_native-MovesCoin e =
      let a = get_account s address in
      ground (
        arith,
        Dict.total-put coin_of_account s.accounts address (record a { balance = a.balance + n }),
      )

  pub debit_native-MovesCoin : debit_native address n s ≡ ok t → MovesCoin s t n 0
  unfolding debit_native ◌>>=◌
  debit_native-MovesCoin e =
      let a = get_account s address in
      ground (
        arith,
        Dict.total-put coin_of_account s.accounts address (record a { balance = a.balance - n }),
      )

  module _ (symbol : String) where
    pub credit_token-MovesCoin : credit_token address symbol n s ≡ ok t → MovesCoin s t 0 0
    unfolding credit_token checked_add ◌>>=◌
    credit_token-MovesCoin e = grind (arith, Dict.total-put)

    pub debit_token-MovesCoin : debit_token address symbol n s ≡ ok t → MovesCoin s t 0 0
    unfolding debit_token ◌>>=◌
    debit_token-MovesCoin e = grind (arith, Dict.total-put)

-- The coin in an amount of some asset.
abbrev pub coin_part : String → ℕ → ℕ
coin_part symbol n = if str_eq symbol native then n else 0

module _ (address symbol : String) (n : ℕ) (s : State) {t : State} where
  pub credit_asset-MovesCoin :
      credit_asset address symbol n s ≡ ok t → MovesCoin s t 0 (coin_part symbol n)
  unfolding credit_asset
  credit_asset-MovesCoin e = ground (
    arith,
    credit_native-MovesCoin address n s {t = t},
    credit_token-MovesCoin address n s {t = t} symbol,
  )

  pub debit_asset-MovesCoin :
      debit_asset address symbol n s ≡ ok t → MovesCoin s t (coin_part symbol n) 0
  unfolding debit_asset
  debit_asset-MovesCoin e = ground (
    arith,
    debit_native-MovesCoin address n s {t = t},
    debit_token-MovesCoin address n s {t = t} symbol,
  )
