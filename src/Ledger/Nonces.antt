-- ===== src/Ledger/Nonces.antt =====
-- The ledger's primitives leave the nonces of accounts and the votes alone.
use mineverse.Prelude.{
  ℕ, ◌+◌, ◌-◌, String, none, some, ◌≡◌, ok, ◌>>=◌, arith, eq_iff, str_eq, if◌then◌else◌,
}
use mineverse.Dict
use mineverse.Dict.{Dict}
use mineverse.Records.{Account, State}
use mineverse.Ledger.{
  checked_add, get_account, set_account, credit_native, debit_native, credit_token, debit_token,
  credit_asset, debit_asset, held, store_left,
}

-- The nonce of an account, 0 where there is none.
pub nonce_of : Dict Account → String → ℕ
nonce_of accounts who = elim (Dict.get accounts who) [ none ↦ 0 | some a ↦ a.nonce ]

-- The nonce of one account is the same, and so are all votes.
abbrev pub KeepsNonce : String → State → State → Type 0
KeepsNonce who s t = (nonce_of t.accounts who ≡ nonce_of s.accounts who) × (t.votes ≡ s.votes)

pub get_account-nonce :
    (s : State) (who : String) → (get_account s who).nonce ≡ nonce_of s.accounts who
unfolding nonce_of get_account
get_account-nonce s who = ground arith

pub nonce_of-put :
    (who address : String) (a : Account) (accounts : Dict Account)
    → nonce_of (Dict.put accounts address a) who
      ≡ (if str_eq address who then a.nonce else nonce_of accounts who)
unfolding nonce_of
nonce_of-put who address a accounts = ground (arith, Dict.get-put accounts address who a)

pub put-nonce :
    (who address : String) (a : Account) (s : State)
    → a.nonce ≡ (get_account s address).nonce
    → nonce_of (Dict.put s.accounts address a) who ≡ nonce_of s.accounts who
put-nonce who address a s h =
    ground (
      arith,
      nonce_of-put who address a s.accounts,
      get_account-nonce s address,
      eq_iff address who,
    )

module _ (who address : String) (n : ℕ) (s : State) {t : State} where
  pub credit_native-nonce : credit_native address n s ≡ ok t → KeepsNonce who s t
  unfolding credit_native checked_add set_account ◌>>=◌
  credit_native-nonce e =
      let a = get_account s address in
      ground (arith, put-nonce who address (record a { balance = a.balance + n }) s)

  pub debit_native-nonce : debit_native address n s ≡ ok t → KeepsNonce who s t
  unfolding debit_native set_account ◌>>=◌
  debit_native-nonce e =
      let a = get_account s address in
      ground (arith, put-nonce who address (record a { balance = a.balance - n }) s)

  module _ (symbol : String) where
    pub credit_token-nonce : credit_token address symbol n s ≡ ok t → KeepsNonce who s t
    unfolding credit_token checked_add set_account ◌>>=◌
    credit_token-nonce e =
        let a = get_account s address in
        let tokens = Dict.put a.tokens symbol (held a.tokens symbol + n) in
        ground (arith, put-nonce who address (record a { tokens = tokens }) s)

    pub debit_token-nonce : debit_token address symbol n s ≡ ok t → KeepsNonce who s t
    unfolding debit_token set_account ◌>>=◌
    debit_token-nonce e =
        let a = get_account s address in
        let tokens = store_left a.tokens symbol (held a.tokens symbol - n) in
        ground (arith, put-nonce who address (record a { tokens = tokens }) s)

module _ (who address symbol : String) (n : ℕ) (s : State) {t : State} where
  pub credit_asset-nonce : credit_asset address symbol n s ≡ ok t → KeepsNonce who s t
  unfolding credit_asset
  credit_asset-nonce e = ground (
    arith,
    credit_native-nonce who address n s {t = t},
    credit_token-nonce who address n s {t = t} symbol,
  )

  pub debit_asset-nonce : debit_asset address symbol n s ≡ ok t → KeepsNonce who s t
  unfolding debit_asset
  debit_asset-nonce e = ground (
    arith,
    debit_native-nonce who address n s {t = t},
    debit_token-nonce who address n s {t = t} symbol,
  )
