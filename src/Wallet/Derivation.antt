-- ===== src/Wallet/Derivation.antt =====
-- The loop of `privateKeyFromSeed` (src/crypto/keys.js).
use mineverse.Prelude.{
  ℕ, zero, suc, ◌+◌, ◌≤◌, ◌<◌, true, false, ◌≡◌, arith, ok, Bool-cases, inl, inr, ◌==◌,
}
use mineverse.Wallet.{KeyLib, is_valid_private_key, derive, private_key_from_seed}

module _ (kl : KeyLib) (seed : kl.Seed) where
  derive-first :
      (rounds i n : ℕ)
      → i ≤ n
      → n < i + rounds
      → is_valid_private_key kl (kl.candidate seed n) ≡ true
      → ((j : ℕ) → i ≤ j → j < n → is_valid_private_key kl (kl.candidate seed j) ≡ false)
      → derive kl rounds i seed ≡ ok (kl.candidate seed n)
  unfolding derive
  derive-first zero i n low high v others = ground arith
  derive-first (suc rounds) i n low high v others = elim (Bool-cases (i == n)) [
    | inl here ↦ ground arith
    | inr later ↦
        let e =
          derive-first rounds (i + 1) n (ground arith) (omega arith) v
            (λ j above below. others j (omega arith) below) in
        let skip = others i (omega arith) (ground arith) in rw (skip) e
  ]

  -- The key that a seed gives is the first of its 256 candidates that is valid, where there is one.
  pub private_key_from_seed-first :
      (n : ℕ)
      → n < 256
      → is_valid_private_key kl (kl.candidate seed n) ≡ true
      → ((j : ℕ) → j < n → is_valid_private_key kl (kl.candidate seed j) ≡ false)
      → private_key_from_seed kl seed ≡ ok (kl.candidate seed n)
  unfolding private_key_from_seed
  private_key_from_seed-first n h v others =
      derive-first 256 0 n (omega arith) (omega arith) v (λ j low high. others j high)
