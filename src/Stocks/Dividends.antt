-- ===== src/Stocks/Dividends.antt =====
-- A dividend leaves the treasury and reaches the holders, coin by coin.
use mineverse.Prelude.{
  ℕ, ◌+◌, ◌<◌, String, List, [], ◌∷◌, ◌≡◌, arith, ok, >>=-eq-ok, ◌==◌, ltb, if◌then◌else◌,
  Bool-cases, inl, inr,
}
use mineverse.Prelude.Number.{two53, round_double}
use mineverse.Prelude.Number.Bounds.{round_double_exact, le-round_double}
use mineverse.Dict
use mineverse.Dict.{Dict}
use mineverse.Records.{State, Receipt}
use mineverse.Ledger.{minus, checked_add, credit_native}
use mineverse.Ledger.Supply.{coin_of_company, MovesCoin, credit_native-MovesCoin}
use mineverse.Bank.Supply.{KeepsSupply}
use mineverse.Stocks.{require_company, cut_of, pay_holders, pay_dividend}

-- A sum of doubles that is safe was exact on the way.
exact_sum : (n : ℕ) → round_double n < two53 → (n < two53) × (round_double n ≡ n)
exact_sum n h = elim (Bool-cases (ltb n two53)) [
  | inl small ↦ (ground arith, round_double_exact n (ground arith))
  | inr large ↦ absurd (omega (arith, le-round_double n (ground arith)))
]

pay-MovesCoin :
    (address : String) (cut : ℕ) (s : State) {t : State}
    → (if cut == 0 then ok s else credit_native address cut s) ≡ ok t
    → MovesCoin s t 0 cut
pay-MovesCoin address cut s {t} h = ground (arith, credit_native-MovesCoin address cut s {t = t})

MovesCoin-step :
    (s t u : State) (d cut d' : ℕ)
    → MovesCoin s t 0 cut
    → MovesCoin t u (d + cut) d'
    → MovesCoin s u d d'
MovesCoin-step s t u d cut d' h k = ground arith

-- If what was distributed in the end is a safe integer, just that has reached the accounts.
pub pay_holders-MovesCoin :
    (amount outstanding : ℕ) (holders : Dict ℕ) (addresses : List String) (d : ℕ) (s : State)
    {d' : ℕ} {t : State}
    → pay_holders amount outstanding holders addresses d s ≡ ok (d', t)
    → d' < two53
    → (d < two53) × MovesCoin s t d d'
unfolding pay_holders
pay_holders-MovesCoin amount outstanding holders [] d s h k = ground arith
pay_holders-MovesCoin amount outstanding holders (address ∷ rest) d s {d'} {t} h k =
    let (shares, g1, h1) = >>=-eq-ok _ _ h in
    let (paid, e1, h2) = >>=-eq-ok _ _ h1 in
    let cut = cut_of amount outstanding shares in
    let (small, moved) = pay_holders-MovesCoin amount outstanding holders rest _ paid h2 k in
    let (sum_small, exact) = exact_sum (d + cut) small in
    (
      omega arith,
      MovesCoin-step s paid t d cut d' (pay-MovesCoin address cut s e1) (rw exact at moved),
    )

pub pay_dividend-Moves :
    (symbol : String) (amount : ℕ) (hash from : String) (s : State) {t : State} {rs : List Receipt}
    → pay_dividend symbol amount hash from s ≡ ok (t, rs)
    → KeepsSupply s t
unfolding pay_dividend require_company minus checked_add
pay_dividend-Moves symbol amount hash from s h =
    let (co, g1, h1) = >>=-eq-ok _ _ h in
    let (u2, g2, h2) = >>=-eq-ok _ _ h1 in
    let (u3, g3, h3) = >>=-eq-ok _ _ h2 in
    let (u4, g4, h4) = >>=-eq-ok _ _ h3 in
    let (r, e1, h5) = >>=-eq-ok _ _ h4 in
    let (left, g6, h6) = >>=-eq-ok _ _ h5 in
    let (paid, g7, h7) = >>=-eq-ok _ _ h6 in
    let co' = record co { treasury = left; dividends_paid = paid } in
    ground (
      arith,
      pay_holders-MovesCoin _ _ _ _ 0 s e1,
      Dict.total-put coin_of_company r.1.companies symbol co',
    )
