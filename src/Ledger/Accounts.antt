-- ===== src/Ledger/Accounts.antt =====
-- What the ledger's primitives do to the account that they name (src/core/ledger.js).
use mineverse.Prelude.{refl, ℕ, ◌+◌, ◌-◌, ◌≡◌, String, ok, arith, ◌>>=◌, eq_iff}
use mineverse.Dict
use mineverse.Dict.{Dict}
use mineverse.Records.{Account, State}
use mineverse.Ledger.{
  checked_add, get_account, set_account, credit_native, debit_native, credit_token, debit_token,
  held, store_left,
}

-- What an address has of a symbol other than the native one.
abbrev pub tokens_in : State → String → String → ℕ
tokens_in s who symbol = held (get_account s who).tokens symbol

get_account-set_account :
    (who : String) (a : Account) (s : State) → get_account (set_account s who a) who ≡ a
unfolding get_account set_account
get_account-set_account who a s = ground (arith, Dict.get-put s.accounts who who a, eq_iff who who)

pub held-put : (d : Dict ℕ) (k : String) (n : ℕ) → held (Dict.put d k n) k ≡ n
unfolding held
held-put d k n = ground (arith, Dict.get-put d k k n, eq_iff k k)

pub held-remove : (d : Dict ℕ) (k : String) → held (Dict.remove d k) k ≡ 0
unfolding held
held-remove d k = ground (arith, Dict.get-remove d k k, eq_iff k k)

held-store_left : (d : Dict ℕ) (k : String) (n : ℕ) → held (store_left d k n) k ≡ n
unfolding store_left
held-store_left d k n = ground (arith, held-put d k n, held-remove d k)

module _ (who : String) (n : ℕ) (s : State) {t : State} where
  pub credit_native-account :
      credit_native who n s ≡ ok t
      → ((get_account t who).balance ≡ (get_account s who).balance + n)
        × ((get_account t who).tokens ≡ (get_account s who).tokens)
  unfolding credit_native checked_add ◌>>=◌
  credit_native-account e =
      let a = get_account s who in
      let next : Account = record a { balance = a.balance + n } in
      let set : set_account s who next ≡ t = ground arith in
      rw (← set) (rw (get_account-set_account who next s) (omega arith, refl))

  pub debit_native-account :
      debit_native who n s ≡ ok t
      → ((get_account t who).balance + n ≡ (get_account s who).balance)
        × ((get_account t who).tokens ≡ (get_account s who).tokens)
  unfolding debit_native ◌>>=◌
  debit_native-account e =
      let a = get_account s who in
      let next : Account = record a { balance = a.balance - n } in
      let set : set_account s who next ≡ t = ground arith in
      rw (← set) (rw (get_account-set_account who next s) (ground arith, refl))

  module _ (symbol : String) where
    pub credit_token-account :
        credit_token who symbol n s ≡ ok t
        → ((get_account t who).balance ≡ (get_account s who).balance)
          × (tokens_in t who symbol ≡ tokens_in s who symbol + n)
    unfolding credit_token checked_add ◌>>=◌
    credit_token-account e =
        let a = get_account s who in
        let more = held a.tokens symbol + n in
        let next : Account = record a { tokens = Dict.put a.tokens symbol more } in
        let set : set_account s who next ≡ t = ground arith in
        rw (← set) (rw (get_account-set_account who next s) (refl, held-put a.tokens symbol more))

    pub debit_token-account :
        debit_token who symbol n s ≡ ok t
        → ((get_account t who).balance ≡ (get_account s who).balance)
          × (tokens_in t who symbol + n ≡ tokens_in s who symbol)
    unfolding debit_token ◌>>=◌
    debit_token-account e =
        let a = get_account s who in
        let less = held a.tokens symbol - n in
        let next : Account = record a { tokens = store_left a.tokens symbol less } in
        let set : set_account s who next ≡ t = ground arith in
        rw (← set) (
          rw (get_account-set_account who next s)
            (refl, ground (arith, held-store_left a.tokens symbol less)))
