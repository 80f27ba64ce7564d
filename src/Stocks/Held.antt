-- ===== src/Stocks/Held.antt =====
-- What `creditShares` and `debitShares` of src/core/stocks.js do to the holder that they name.
use mineverse.Prelude.{ℕ, ◌+◌, ◌-◌, ◌≡◌, String, ok, ◌>>=◌, arith}
use mineverse.Records.{Company}
use mineverse.Ledger.{checked_add, held, minus}
use mineverse.Ledger.Accounts.{held-put, held-remove}
use mineverse.Stocks.Shares.{shares_of, credit_shares, debit_shares}

-- The pool and the treasury of a company are those of another.
abbrev pub IsSamePool : Company → Company → Type 0
IsSamePool a b =
    (a.reserve_native ≡ b.reserve_native)
    × (a.reserve_shares ≡ b.reserve_shares)
    × (a.treasury ≡ b.treasury)

module _ (who : String) (n : ℕ) (co : Company) {next : Company} where
  pub credit_shares-held :
      credit_shares who n co ≡ ok next
      → (shares_of next who ≡ shares_of co who + n) × IsSamePool next co
  unfolding credit_shares checked_add shares_of ◌>>=◌
  credit_shares-held e = let h = held-put co.holders who (held co.holders who + n) in ground arith

  pub debit_shares-held :
      debit_shares who n co ≡ ok next
      → (shares_of next who + n ≡ shares_of co who) × IsSamePool next co
  unfolding debit_shares minus shares_of ◌>>=◌
  debit_shares-held e =
      let h = held-put co.holders who (held co.holders who - n) in
      let k = held-remove co.holders who in ground arith
