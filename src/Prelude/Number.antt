-- ===== src/Prelude/Number.antt =====
-- JavaScript's numbers: doubles that hold integers. An integer below 2^53 is exact; the product of
-- two amounts may not be, and `Math.floor(a / b)` rounds the quotient before it takes the floor.
-- Rounding is to the nearest, ties to even.
pub mod Bounds
pub mod Division
use Prim.Native.Nat.{ℕ, zero, suc, ◌+◌, ◌*◌, ◌/◌, ◌%◌}
use mineverse.Prelude.Tests.{ltb, ◌==◌, if◌then◌else◌}

-- 2^53: `Number.MAX_SAFE_INTEGER` and 1.
abbrev pub two53 : ℕ
two53 = 9007199254740992

-- a / b, rounded to an integer.
unfoldable pub round_div : ℕ → ℕ → ℕ
round_div a b =
    let twice_rest = 2 * (a % b) in
    if ltb twice_rest b then a / b else if ltb b twice_rest then a / b + 1 else a / b + (a / b) % 2

-- The power of two that brings an integer below 2^53.
unfoldable pub excess : ℕ → ℕ → ℕ
excess zero n = 1
excess (suc fuel) n = let more = 2 * excess fuel (n / 2) in if ltb n two53 then 1 else more

-- The double next to an integer. Products of two doubles below 2^53 take 53 halvings at most.
unfoldable pub round_double : ℕ → ℕ
round_double n = if ltb n two53 then n else let unit = excess 64 n in round_div n unit * unit

-- `a * b`
unfoldable pub times : ℕ → ℕ → ℕ
times a b = round_double (a * b)

-- The power of two that brings a quotient to 2^52 or more, so that 53 bits of it are integral.
unfoldable pub scale : ℕ → ℕ → ℕ → ℕ
scale zero a b = 1
scale (suc fuel) a b =
    let more = 2 * scale fuel (2 * a) b in if ltb (a / b) 4503599627370496 then more else 1

-- `Math.floor(a / b)`. With a and b below 2^53 and a not 0 the quotient takes 105 doublings at most.
unfoldable pub floor_div : ℕ → ℕ → ℕ
floor_div a b =
    if a == 0
    then 0
    else if ltb (a / b) two53
    then (let s = scale 128 a b in round_div (a * s) b / s)
    else (let unit = excess 64 (a / b) in round_div a (b * unit) * unit)
