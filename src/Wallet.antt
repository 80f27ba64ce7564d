-- ===== src/Wallet.antt =====
-- src/crypto/mnemonic.js, src/crypto/wallet.js, and the part of src/crypto/keys.js that makes keys.
-- A word is the list of the codes of its characters. Key stretching, hashing and the curve are
-- arguments, and so is the random generator: its draws are a list.
pub mod Words
pub mod Phrases
pub mod RoundTrip
pub mod Derivation
use mineverse.Prelude.{
  ℕ, zero, suc, ◌+◌, String, Bool, true, false, not, ◌&&◌, Option, none, some, List, [], ◌∷◌, ◌==◌,
  ltb, length, get_elem?, if◌then◌else◌, Result, ok, err, ◌>>=◌, ◌>>◌, fail_if, require,
}
use mineverse.Keys.{CryptoLib, is_hash, address_from_public_key}
use Words.{Word, word_count, Phrase, words, normalize, includes_all, join_words}

pub record KeyLib : Type 1 where
  pub lib : CryptoLib
  pub Seed : Type 0
  -- `pbkdf2Sync` of the text of a phrase
  pub stretch : Word → Seed
  -- the digest of "mineverse-key-v1", the seed and a counter, as hexadecimal digits
  pub candidate : Seed → ℕ → String
  -- the scalar is in [1, N - 1]
  pub in_range : String → Bool
  pub public_of : String → String
  -- `ec.keyFromPrivate(key, "hex").sign(digest, ...)`
  pub sign_digest : (private_key digest : String) → String

pub data KeyError : Type 0 where
  invalid_private_key invalid_public_key key_derivation_failed wrong_word_count : KeyError
  unknown_word wordlist_too_small no_draw bad_digest : KeyError

pub record Wallet : Type 0 where
  pub private_key : String
  pub public_key : String
  pub address : String

module _ (kl : KeyLib) where
  unfoldable pub is_valid_private_key : String → Bool
  is_valid_private_key hex = is_hash hex && kl.in_range hex

  -- `generatePrivateKey`: the first valid one of what the generator gives; none while there is none.
  unfoldable pub generate_private_key : List String → Option String
  unfolding is_valid_private_key
  generate_private_key [] = none
  generate_private_key (candidate ∷ more) =
      let rest = generate_private_key more in
      if is_valid_private_key candidate then some candidate else rest

  -- The loop of `privateKeyFromSeed`, from a counter on.
  unfoldable pub derive : ℕ → ℕ → kl.Seed → Result KeyError String
  unfolding is_valid_private_key
  derive zero i seed = err key_derivation_failed
  derive (suc rounds) i seed =
      let rest = derive rounds (i + 1) seed in
      if is_valid_private_key (kl.candidate seed i) then ok (kl.candidate seed i) else rest

  unfoldable pub private_key_from_seed : kl.Seed → Result KeyError String
  unfolding derive
  private_key_from_seed seed = derive 256 0 seed

  -- `privateKeyFromMnemonic`, with the word list.
  unfoldable pub private_key_from_mnemonic : List Word → Phrase → Result KeyError String
  private_key_from_mnemonic wordlist phrase = do
    let normalized = normalize phrase
    fail_if (not (length normalized == word_count)) wrong_word_count
    fail_if (not (includes_all wordlist normalized)) unknown_word
    private_key_from_seed (kl.stretch (join_words normalized))

  -- `new Wallet(privateKey)`
  unfoldable pub new_wallet : String → Result KeyError Wallet
  unfolding is_valid_private_key
  new_wallet private_key = do
    fail_if (not (is_valid_private_key private_key)) invalid_private_key
    let public_key = kl.public_of private_key
    address ← require (address_from_public_key kl.lib public_key) invalid_public_key
    ok (record { private_key = private_key; public_key = public_key; address = address })

  -- `Wallet.fromMnemonic`
  unfoldable pub from_mnemonic : List Word → Phrase → Result KeyError Wallet
  from_mnemonic wordlist phrase = do
    private_key ← private_key_from_mnemonic wordlist phrase
    new_wallet private_key

  -- The loop of `generateMnemonic`; a draw below the length of the list finds a word.
  unfoldable pub pick_words : List Word → ℕ → List ℕ → Result KeyError (List Word)
  pick_words wordlist zero draws = ok []
  pick_words wordlist (suc n) [] = err no_draw
  pick_words wordlist (suc n) (draw ∷ draws) = do
    word ← require (get_elem? wordlist draw) no_draw
    rest ← pick_words wordlist n draws
    ok (word ∷ rest)

  unfoldable pub generate_mnemonic : List Word → List ℕ → Result KeyError (List Word)
  unfolding pick_words
  generate_mnemonic wordlist draws = pick_words wordlist word_count draws

  -- `Wallet.create`: the wallet, and its phrase.
  unfoldable pub create : List Word → List ℕ → Result KeyError (Wallet × List Word)
  create wordlist draws = do
    phrase ← generate_mnemonic wordlist draws
    private_key ← private_key_from_mnemonic wordlist (words phrase)
    wallet ← new_wallet private_key
    ok (wallet, phrase)

  -- `keys.sign` with the wallet's key
  unfoldable pub sign : Wallet → String → Result KeyError String
  unfolding is_valid_private_key
  sign wallet digest = do
    fail_if (not (is_valid_private_key wallet.private_key)) invalid_private_key
    fail_if (not (is_hash digest)) bad_digest
    ok (kl.sign_digest wallet.private_key digest)
