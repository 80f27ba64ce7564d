-- ===== src/Mempool/Bounds.antt =====
-- What the mempool holds, and what it selects.
use mathlib.Core.Path.{subst}
use mineverse.Prelude.{
  ℕ, zero, suc, ◌+◌, ◌≤◌, Option, some, none, List, [], ◌∷◌, ◌≡◌, sym, arith, length, ok, >>=-eq-ok,
  Option-cases, inl, inr, Bool-cases, ◌==◌, if◌then◌else◌,
}
use mineverse.Config.{max_mempool_txs}
use mineverse.Dict
use mineverse.Dict.{Dict}
use mineverse.Records.{State}
use mineverse.Transaction.{Transaction}
use mineverse.Env.{Env}
use mineverse.Mempool.{Mempool, add}
use mineverse.Mempool.Select.{better, best_at, run_from, take_upto}

-- A pool that has room before a transaction is added has no more than its limit after it.
pub add-size :
    (env : Env) (now : ℕ) (tx : Transaction) (s : State) (pool : Mempool) {next : Mempool}
    → add env now tx s pool ≡ ok next
    → length (Dict.values next.txs) ≤ max_mempool_txs
unfolding add
add-size env now tx s pool h =
    let (u1, g1, h1) = >>=-eq-ok _ _ h in
    let (u2, g2, h2) = >>=-eq-ok _ _ h1 in
    let (u3, g3, h3) = >>=-eq-ok _ _ h2 in
    let (u4, g4, h4) = >>=-eq-ok _ _ h3 in
    let (u5, g5, h5) = >>=-eq-ok _ _ h4 in
    let (u6, g6, h6) = >>=-eq-ok _ _ h5 in
    let (u7, g7, h7) = >>=-eq-ok _ _ h6 in
    let (u8, g8, h8) = >>=-eq-ok _ _ h7 in ground (arith, Dict.length-put pool.txs tx.hash tx)

length-take_upto : (n : ℕ) (txs : List Transaction) → length (take_upto n txs) ≤ n
unfolding take_upto
length-take_upto zero txs = omega arith
length-take_upto (suc n) [] = omega arith
length-take_upto (suc n) (tx ∷ txs) = omega (arith, length-take_upto n txs)

-- The nonces of the transactions count up from a number.
pub data CountsFrom : ℕ → List Transaction → Type 0 where
  done : {n : ℕ} → CountsFrom n []
  next :
      {n : ℕ} {tx : Transaction} {txs : List Transaction}
      → tx.nonce ≡ n
      → CountsFrom (n + 1) txs
      → CountsFrom n (tx ∷ txs)

abbrev HasNonce : ℕ → Option Transaction → Type 0
HasNonce n none = Unit
HasNonce n (some tx) = tx.nonce ≡ n

challenge-HasNonce :
    (n : ℕ) (best : Option Transaction) (tx : Transaction)
    → HasNonce n best
    → HasNonce n (if tx.nonce == n then some (better best tx) else best)
unfolding better
challenge-HasNonce n none tx h = elim (Bool-cases (tx.nonce == n)) [
  | inl e ↦ rw e (ground arith)
  | inr e ↦ rw e tt
]
challenge-HasNonce n (some old) tx h = elim (Bool-cases (tx.nonce == n)) [
  | inl e ↦ rw e (ground arith)
  | inr e ↦ rw e h
]

best_at-HasNonce :
    (n : ℕ) (txs : List Transaction) (best : Option Transaction)
    → HasNonce n best
    → HasNonce n (best_at n best txs)
unfolding best_at
best_at-HasNonce n [] best h = h
best_at-HasNonce n (tx ∷ txs) best h = best_at-HasNonce n txs _ (challenge-HasNonce n best tx h)

module _ (fuel expected : ℕ) (txs : List Transaction) where
  run_from-none : best_at expected none txs ≡ none → run_from (suc fuel) expected txs ≡ []
  unfolding run_from
  run_from-none e = ground arith

  run_from-some :
      {tx : Transaction}
      → best_at expected none txs ≡ some tx
      → run_from (suc fuel) expected txs ≡ tx ∷ run_from fuel (expected + 1) txs
  unfolding run_from
  run_from-some e = ground arith

-- A run of one sender's transactions has the nonces from the expected one on, without a gap.
pub run_from-CountsFrom :
    (fuel expected : ℕ) (txs : List Transaction) → CountsFrom expected (run_from fuel expected txs)
run_from-CountsFrom zero expected txs = unfold run_from in done
run_from-CountsFrom (suc fuel) expected txs = elim (Option-cases (best_at expected none txs)) [
  | inl e ↦ subst (CountsFrom expected) (sym (run_from-none fuel expected txs e)) done
  | inr (tx, e) ↦ subst (CountsFrom expected) (sym (run_from-some fuel expected txs e)) (
      next (subst (HasNonce expected) e (best_at-HasNonce expected txs none tt))
        (run_from-CountsFrom fuel (expected + 1) txs))
]
