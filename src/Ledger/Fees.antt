-- ===== src/Ledger/Fees.antt =====
-- What `feeOf` takes.
use mineverse.Prelude.{ℕ, ◌+◌, ◌*◌, ◌/◌, ◌≤◌, ◌<◌, ◌≡◌, ltb, Bool-cases, inl, inr, arith}
use mineverse.Prelude.Number.{two53, round_double, times}
use mineverse.Prelude.Number.Bounds.{round_double_exact, round_double-le}
use mineverse.Prelude.Number.Division.{floor_div_exact, floor_div-le}
use mineverse.Ledger.{fee_of}

-- A fee in basis points is exact while the product is below 2^53.
pub fee_of_exact :
    (amount bps : ℕ) → amount * bps < two53 → fee_of amount bps ≡ amount * bps / 10000
unfolding fee_of times
fee_of_exact amount bps h =
    rw (round_double_exact (amount * bps) h)
      (floor_div_exact (amount * bps) 10000 h (omega arith) (omega arith))

mul-le : (a b c : ℕ) → b ≤ c → a * b ≤ a * c
mul-le a b c h = grind arith

rough_fee :
    (amount m fee : ℕ) → 5 ≤ amount → m ≤ 4000 * amount → fee ≤ 2 * (m / 10000) + 1 → fee ≤ amount
rough_fee amount m fee h k l = omega arith

-- With a rate of at most 20% the fee never exceeds the amount, whatever is rounded on the way.
pub fee_of-le : (amount bps : ℕ) → bps ≤ 2000 → fee_of amount bps ≤ amount
fee_of-le amount bps h =
    let m : amount * bps ≤ amount * 2000 = mul-le amount bps 2000 h in
    elim (Bool-cases (ltb (amount * bps) two53)) [
      | inl small ↦ rw (fee_of_exact amount bps (ground arith)) (omega arith)
      | inr large ↦
          unfold fee_of times in
          rough_fee amount (round_double (amount * bps)) _ (ground arith)
            (omega (arith, round_double-le (amount * bps)))
            (floor_div-le (round_double (amount * bps)) 10000 (omega arith))
    ]
