-- ===== src/Prelude/Number/Bounds.antt =====
-- How far rounding goes.
use Prim.Native.Nat.{ℕ, zero, suc, ◌+◌, ◌*◌, ◌/◌, ◌≤◌, ◌<◌}
use mathlib.Core.Path.{◌≡◌}
use mathlib.Core.Logic.{inl, inr}
use native.Mathlib.Omega.{arith}
use mineverse.Prelude.Tests.{ltb, Bool-cases}
use mineverse.Prelude.Number.{two53, round_div, excess, round_double}

pub round_div-le : (a b : ℕ) → round_div a b ≤ a / b + 1
unfolding round_div
round_div-le a b = ground arith

pub le-round_div : (a b : ℕ) → a / b ≤ round_div a b
unfolding round_div
le-round_div a b = ground arith

pub excess_pos : (fuel n : ℕ) → 1 ≤ excess fuel n
unfolding excess
excess_pos zero n = omega arith
excess_pos (suc fuel) n = ground (arith, excess_pos fuel (n / 2))

-- The units of an integer of 2^52 or more number 2^52 at least.
pub excess-mul-le : (fuel n : ℕ) → 4503599627370496 ≤ n → 4503599627370496 * excess fuel n ≤ n
unfolding excess
excess-mul-le zero n h = omega arith
excess-mul-le (suc fuel) n h = elim (Bool-cases (ltb n two53)) [
  | inl small ↦ rw small (omega arith)
  | inr large ↦ rw large (let ih = excess-mul-le fuel (n / 2) (ground arith) in omega arith)
]

two-le-excess : (fuel n : ℕ) → two53 ≤ n → 2 ≤ excess (suc fuel) n
unfolding excess
two-le-excess fuel n h = ground (arith, excess_pos fuel (n / 2))

-- Below 2^53 an integer is a double.
pub round_double_exact : (n : ℕ) → n < two53 → round_double n ≡ n
unfolding round_double
round_double_exact n h = ground arith

module _ (n u q : ℕ) (unit : 1 ≤ u) (units : 4503599627370496 * u ≤ n) where
  quotient_bounds : (4503599627370496 ≤ n / u) × (n / u * u ≤ n)
  quotient_bounds = (grind arith, grind arith)

  mul_bound : q ≤ n / u + 1 → q * u ≤ 2 * n
  mul_bound h = let (a, b) = quotient_bounds in grind arith

pub round_double-le : (n : ℕ) → round_double n ≤ 2 * n
unfolding round_double
round_double-le n = elim (Bool-cases (ltb n two53)) [
  | inl small ↦ rw small (omega arith)
  | inr large ↦ rw large (
      mul_bound n (excess 64 n) (round_div n (excess 64 n)) (excess_pos 64 n)
        (excess-mul-le 64 n (ground arith)) (round_div-le n (excess 64 n)))
]

mul-ge : (u q : ℕ) → 2 ≤ u → 4503599627370496 ≤ q → two53 ≤ q * u
mul-ge u q h k = grind arith

pub le-round_double : (n : ℕ) → two53 ≤ n → two53 ≤ round_double n
unfolding round_double
le-round_double n h = elim (Bool-cases (ltb n two53)) [
  | inl small ↦ absurd (ground arith)
  | inr large ↦ rw large (
      let u = excess 64 n in
      let (a, b) = quotient_bounds n u 0 (excess_pos 64 n) (excess-mul-le 64 n (omega arith)) in
      mul-ge u (round_div n u) (two-le-excess 63 n h) (omega (arith, le-round_div n u)))
]
