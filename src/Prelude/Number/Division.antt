-- ===== src/Prelude/Number/Division.antt =====
-- `Math.floor(a / b)` against the division of integers.
use Prim.Native.Nat.{ℕ, zero, suc, ◌+◌, ◌*◌, ◌/◌, ◌%◌, ◌^◌, ◌≤◌, ◌<◌}
use mathlib.Core.Path.{◌≡◌, refl, ap}
use mathlib.Core.Logic.{◌⊎◌, inl, inr}
use native.Mathlib.Omega.{arith}
use mineverse.Prelude.Tests.{ltb, lt→ltb, ◌==◌, Bool-cases}
use mineverse.Prelude.Number.{two53, round_div, excess, scale, floor_div}
use mineverse.Prelude.Number.Bounds.{round_div-le, le-round_div, excess_pos, excess-mul-le}

scale_pos : (fuel a b : ℕ) → 1 ≤ scale fuel a b
unfolding scale
scale_pos zero a b = omega arith
scale_pos (suc fuel) a b = ground (arith, scale_pos fuel (2 * a) b)

-- The scaled quotient has 53 bits, or the fuel has run out.
scale_reaches :
    (fuel a b : ℕ) → (4503599627370496 ≤ a * scale fuel a b / b) ⊎ (scale fuel a b ≡ 2 ^ fuel)
unfolding scale
scale_reaches zero a b = inr refl
scale_reaches (suc fuel) a b = elim (Bool-cases (ltb (a / b) 4503599627370496)) [
  | inl small ↦ rw small (ground (arith, scale_reaches fuel (2 * a) b))
  | inr large ↦ rw large (inl (ground arith))
]

div-lt_of_mul : (n b m : ℕ) → 1 ≤ b → n < b * m → n / b < m
div-lt_of_mul n b m p h = grind arith

le-div_of_mul : (n t m : ℕ) → 1 ≤ t → t * m ≤ n → m ≤ n / t
le-div_of_mul n t m q h = grind arith

lt-mul_next : (a b : ℕ) → 1 ≤ b → a < b * (a / b + 1)
lt-mul_next a b p = omega arith

mul_mono : (a c t : ℕ) → a ≤ c → a * t ≤ c * t
mul_mono a c t h = grind arith

mul_mono_lt : (a c t : ℕ) → 1 ≤ t → a < c → a * t < c * t
mul_mono_lt a c t q h = grind arith

module _ (a b t : ℕ) (p : 1 ≤ b) (q : 1 ≤ t) where
  mul-lt : a * t < b * ((a / b + 1) * t)
  mul-lt = omega (arith, mul_mono_lt a (b * (a / b + 1)) t q (lt-mul_next a b p))

  div-lt : a * t / b < (a / b + 1) * t
  div-lt = div-lt_of_mul (a * t) b ((a / b + 1) * t) p mul-lt

  -- The rounded quotient is at most one too large.
  scaled-le : round_div (a * t) b / t ≤ a / b + 1
  scaled-le = omega (
    arith,
    div-lt_of_mul (round_div (a * t) b) t (a / b + 2) q
        (omega (arith, div-lt, round_div-le (a * t) b)),
  )

  scaled-ge : a / b ≤ round_div (a * t) b / t
  scaled-ge = le-div_of_mul (round_div (a * t) b) t (a / b) q (
      omega (
        arith,
        le-round_div (a * t) b,
        le-div_of_mul (a * t) b (t * (a / b)) p
            (omega (arith, mul_mono (b * (a / b)) a t (omega arith))),
      ))

  -- Just below the next unit the rest is too small to round up.
  small_rest :
      a < two53
      → 4503599627370496 ≤ a * t / b
      → a * t / b + 1 ≡ (a / b + 1) * t
      → 2 * (a * t % b) < b
  small_rest h k e =
      let room : suc a * t ≤ b * (a / b + 1) * t =
        mul_mono (suc a) (b * (a / b + 1)) t (lt-mul_next a b p) in
      let next : b * (a * t / b + 1) ≡ b * ((a / b + 1) * t) = ap (λ (n : ℕ). b * n) e in
      let low : 4503599627370496 * b ≤ a * t / b * b = mul_mono 4503599627370496 (a * t / b) b k in
      let high : suc a * t ≤ two53 * t = mul_mono (suc a) two53 t h in omega arith

  round_div-lt : a < two53 → 4503599627370496 ≤ a * t / b → round_div (a * t) b < (a / b + 1) * t
  unfolding round_div
  round_div-lt h k = ground (arith, div-lt, small_rest h k)

  -- It is right if a has no more than 53 bits.
  scaled_exact : a < two53 → 4503599627370496 ≤ a * t / b → round_div (a * t) b / t ≡ a / b
  scaled_exact h k = omega (
    arith,
    scaled-ge,
    div-lt_of_mul (round_div (a * t) b) t (a / b + 1) q (omega (arith, round_div-lt h k)),
  )

-- The fuel of `scale` is enough.
enough_scale : (a b : ℕ) → 1 ≤ a → 1 ≤ b → b < two53 → 4503599627370496 ≤ a * 2 ^ 128 / b
enough_scale a b p q h = le-div_of_mul (a * 2 ^ 128) b 4503599627370496 q (omega arith)

scale-bits : (a b : ℕ) → 1 ≤ a → 1 ≤ b → b < two53 → 4503599627370496 ≤ a * scale 128 a b / b
scale-bits a b p q h = elim (scale_reaches 128 a b) [
  | inl bits ↦ bits
  | inr e ↦ rw e (enough_scale a b p q h)
]

-- Of two integers below 2^53, `Math.floor(a / b)` is the quotient of the division with rest.
pub floor_div_exact : (a b : ℕ) → a < two53 → 1 ≤ b → b < two53 → floor_div a b ≡ a / b
unfolding floor_div
floor_div_exact a b h p k = elim (Bool-cases (a == 0)) [
  | inl zero_case ↦ rw zero_case (ground arith)
  | inr pos_case ↦
      rw (pos_case, lt→ltb (a / b) two53 (omega arith))
        (scaled_exact a b (scale 128 a b) p (scale_pos 128 a b) h
          (scale-bits a b (ground arith) p k))
]

module _ (a b : ℕ) (p : 1 ≤ b) where
  large-le : (u : ℕ) → 1 ≤ u → 4503599627370496 * u ≤ a / b → round_div a (b * u) * u ≤ 2 * (a / b)
  large-le u q h =
      let d = b * u in
      let whole : a / d * u ≤ a / b = le-div_of_mul a b (a / d * u) p (grind arith) in
      let up : round_div a d * u ≤ (a / d + 1) * u = mul_mono _ _ u (round_div-le a d) in
      omega arith

  pub floor_div-le : floor_div a b ≤ 2 * (a / b) + 1
  unfolding floor_div
  floor_div-le = ground (
    arith,
    scaled-le a b (scale 128 a b) p (scale_pos 128 a b),
    large-le (excess 64 (a / b)) (excess_pos 64 (a / b)),
    excess-mul-le 64 (a / b),
  )
