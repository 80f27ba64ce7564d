-- ===== src/Tests/Wallets.antt =====
-- A wallet that is made and restored.
use mineverse.Prelude.{
  ℕ, zero, suc, ◌+◌, ◌/◌, ◌%◌, ◌<◌, true, false, some, Option, List, [], ◌∷◌, ◌≡◌, refl, arith,
  Result, ok, err, ◌>>=◌, ◌==◌, if◌then◌else◌,
}
use mineverse.Keys.{is_hash, address_from_public_key}
use mineverse.Wallet.{
  KeyLib, KeyError, Wallet, is_valid_private_key, private_key_from_seed, private_key_from_mnemonic,
  new_wallet, from_mnemonic, generate_mnemonic, create,
}
use mineverse.Wallet.Words.{Word, words, line, normalize, includes_all, join_words, collect_words}
use mineverse.Wallet.RoundTrip.{create-from_mnemonic}
use mineverse.Wallet.Derivation.{private_key_from_seed-first}
use mineverse.Tests.Samples.{lib, low_hash, alice_key}

abbrev pub kl : KeyLib
kl = record {
  lib = lib;
  Seed = Word;
  stretch = λ w. w;
  candidate = λ seed i. if i == 0 then "not a key" else low_hash;
  in_range = λ hex. true;
  public_of = λ hex. alice_key;
  sign_digest = λ hex d. "30";
}

-- Names of two letters, the last one first.
abbrev items : ℕ → List (Option Word)
items zero = []
items (suc n) = some ((97 + n / 16) ∷ (97 + n % 16) ∷ []) ∷ items n

abbrev wordlist : List Word
wordlist = collect_words (items 20) []

abbrev result_of : Result KeyError (Wallet × List Word) → Wallet × List Word
result_of (ok r) = r
result_of (err e) = (record { private_key = ""; public_key = ""; address = "" }, [])

abbrev draws : List ℕ
draws = 3 ∷ 1 ∷ 4 ∷ 1 ∷ 5 ∷ 9 ∷ 2 ∷ 6 ∷ 5 ∷ 3 ∷ 5 ∷ 8 ∷ []

abbrev made : Wallet × List Word
made = result_of (create kl wordlist draws)

creation : create kl wordlist draws ≡ ok (made.0, made.1)
unfolding collect_words create generate_mnemonic private_key_from_mnemonic private_key_from_seed
    new_wallet normalize includes_all join_words is_hash address_from_public_key ◌>>=◌
creation = refl

create-from_mnemonic_example :
    (from_mnemonic kl wordlist (words made.1) ≡ ok made.0)
    × (from_mnemonic kl wordlist (line (join_words made.1)) ≡ ok made.0)
create-from_mnemonic_example = create-from_mnemonic kl (items 20) draws creation

abbrev seed : Word
seed = 115 ∷ []

second_candidate : is_valid_private_key kl (kl.candidate seed 1) ≡ true
unfolding is_valid_private_key is_hash
second_candidate = refl

first_candidate : (j : ℕ) → j < 1 → is_valid_private_key kl (kl.candidate seed j) ≡ false
unfolding is_valid_private_key is_hash
first_candidate zero h = refl
first_candidate (suc j) h = absurd (omega arith)

private_key_from_seed-first_example : private_key_from_seed kl seed ≡ ok (kl.candidate seed 1)
private_key_from_seed-first_example =
    private_key_from_seed-first kl seed 1 (omega arith) second_candidate first_candidate
