-- ===== src/Ledger/Swaps.antt =====
-- What a trade against a pool (`amountOut`) does to the pool.
use mathlib.Core.Path.{subst}
use mineverse.Prelude.{ℕ, ◌+◌, ◌-◌, ◌*◌, ◌/◌, ◌≤◌, ◌<◌, ◌≡◌, sym, arith, ok, ◌>>=◌}
use mineverse.Ledger.{in_after_fee, amount_out}

after-le : (amount_in : ℕ) → in_after_fee amount_in ≤ amount_in
unfolding in_after_fee
after-le amount_in = omega arith

mul_le : (a b c d : ℕ) → a ≤ c → b ≤ d → a * b ≤ c * d
mul_le a b c d h k = grind arith

div-mul-le : (n d : ℕ) → 1 ≤ d → n / d * d ≤ n
div-mul-le n d h = grind arith

-- With the output of the curve, the product of the reserves does not fall.
curve :
    (x left after given out : ℕ)
    → after ≤ given
    → out * (x + after) ≤ (out + left) * after
    → x * (out + left) ≤ (x + given) * left
curve x left after given out h l =
    let k : left * after ≤ left * given = mul_le left after left given (omega arith) h in
    grind arith

-- A trade that goes through gives out something, but less than the pool holds, and does not lower
-- the product of the pool's two reserves.
pub amount_out-product :
    (amount_in reserve_in reserve_out : ℕ) {out : ℕ}
    → amount_out amount_in reserve_in reserve_out ≡ ok out
    → (1 ≤ out)
      × (out < reserve_out)
      × (reserve_in * reserve_out ≤ (reserve_in + amount_in) * (reserve_out - out))
unfolding amount_out ◌>>=◌
amount_out-product amount_in reserve_in reserve_out {out} h =
    let after = in_after_fee amount_in in
    let e : out ≡ reserve_out * after / (reserve_in + after) = ground arith in
    let k : out < reserve_out = ground arith in
    let l : out * (reserve_in + after) ≤ reserve_out * after =
      rw e (div-mul-le (reserve_out * after) (reserve_in + after) (ground arith)) in
    let whole : reserve_out ≡ out + (reserve_out - out) = omega arith in
    (
      ground arith,
      k,
      subst (λ n. reserve_in * n ≤ (reserve_in + amount_in) * (reserve_out - out)) (sym whole)
          (curve reserve_in (reserve_out - out) after amount_in out (after-le amount_in)
            (subst (λ n. out * (reserve_in + after) ≤ n * after) whole l)),
    )
