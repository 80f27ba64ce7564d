-- ===== src/Wallet/RoundTrip.antt =====
-- A recovery phrase restores its wallet (src/crypto/mnemonic.js, src/crypto/wallet.js).
use mineverse.Prelude.{
  ℕ, zero, suc, String, Bool, false, not, List, [], ◌∷◌, ◌≡◌, refl, sym, ◌∙◌, ◌&&◌, if◌then◌else◌,
  Bool-cases, inl, inr, arith, All, get_elem?, some, Option, none, ok, ◌>>=◌, >>=-eq-ok, require,
}
use mathlib.Core.Path.{subst}
use mineverse.Prelude.Texts.{text_leb}
use mineverse.Wallet.Words.{
  Word, words, line, clean, normalize, join_words, is_word, Phrase, insert_word, includes,
  underscores, collect_words, word_count,
}
use mineverse.Wallet.{
  KeyLib, Wallet, private_key_from_mnemonic, new_wallet, from_mnemonic, pick_words,
  generate_mnemonic, create,
}
use mineverse.Wallet.Phrases.{IsWord, normalize-join_words, normalize-words}

insert_word-words :
    (w : Word) (ws : List Word) → IsWord w → All IsWord ws → All IsWord (insert_word w ws)
unfolding insert_word
insert_word-words w [] h k = (h, tt)
insert_word-words w (v ∷ vs) h k = elim (Bool-cases (text_leb w v)) [
  | inl before ↦ rw before (h, k)
  | inr after ↦ rw after (k.0, insert_word-words w vs h k.1)
]

keep-words :
    (b : Bool) (w : Word) (seen : List Word)
    → All IsWord seen
    → All IsWord (if is_word w && b then insert_word w seen else seen)
keep-words b w seen h = elim (Bool-cases (is_word w && b)) [
  | inl kept ↦ rw kept (insert_word-words w seen (ground arith) h)
  | inr left ↦ rw left h
]

collect_words-words :
    (items : List (Option Word)) (seen : List Word)
    → All IsWord seen
    → All IsWord (collect_words items seen)
unfolding collect_words
collect_words-words [] seen h = h
collect_words-words (none ∷ items) seen h = collect_words-words items seen h
collect_words-words (some name ∷ items) seen h =
    let word = underscores false (clean name) in
    collect_words-words items _ (keep-words (not (includes seen word)) word seen h)

get_elem-words :
    (wordlist : List Word) (i : ℕ) {w : Word}
    → All IsWord wordlist
    → get_elem? wordlist i ≡ some w
    → IsWord w
get_elem-words [] i h k = cc
get_elem-words (v ∷ vs) zero h k = subst (λ u. IsWord u) (ground arith) h.0
get_elem-words (v ∷ vs) (suc i) h k = get_elem-words vs i h.1 k

require-eq {ℓ κ} :
    {E : Type ℓ} {A : Type κ} (o : Option A) (e : E) {a : A} → require o e ≡ ok a → o ≡ some a
require-eq none e h = cc
require-eq (some b) e h = ground arith

module _ (kl : KeyLib) where
  pick_words-words :
      (wordlist : List Word) (n : ℕ) (draws : List ℕ) {phrase : List Word}
      → All IsWord wordlist
      → pick_words kl wordlist n draws ≡ ok phrase
      → All IsWord phrase
  unfolding pick_words
  pick_words-words wordlist zero draws {phrase} w h =
      let none_left : [] ≡ phrase = ground arith in subst (λ l. All IsWord l) none_left tt
  pick_words-words wordlist (suc n) [] w h = cc
  pick_words-words wordlist (suc n) (draw ∷ draws) {phrase} w h =
      let (word, e, h1) = >>=-eq-ok _ _ h in
      let (rest, k, h2) = >>=-eq-ok _ _ h1 in
      let whole : word ∷ rest ≡ phrase = ground arith in
      subst (λ l. All IsWord l) whole
        (get_elem-words wordlist draw w (require-eq _ _ e), pick_words-words wordlist n draws w k)

  -- A phrase is read for its normalized words only.
  from_mnemonic-normalize :
      (wordlist : List Word) (phrase given : Phrase)
      → normalize given ≡ normalize phrase
      → from_mnemonic kl wordlist given ≡ from_mnemonic kl wordlist phrase
  unfolding from_mnemonic private_key_from_mnemonic
  from_mnemonic-normalize wordlist phrase given e = rw e refl

  create-parts :
      (wordlist : List Word) (draws : List ℕ) {wallet : Wallet} {phrase : List Word}
      → create kl wordlist draws ≡ ok (wallet, phrase)
      → (generate_mnemonic kl wordlist draws ≡ ok phrase)
        × (key : String) × (private_key_from_mnemonic kl wordlist (words phrase) ≡ ok key)
        × (new_wallet kl key ≡ ok wallet)
  unfolding create
  create-parts wordlist draws {wallet} {phrase} h =
      let (p, e, h1) = >>=-eq-ok _ _ h in
      let (key, k, h2) = >>=-eq-ok _ _ h1 in
      let (made, m, h3) = >>=-eq-ok _ _ h2 in
      let same : p ≡ phrase = ground arith in
      (
        subst (λ l. generate_mnemonic kl wordlist draws ≡ ok l) same e,
        key,
        subst (λ l. private_key_from_mnemonic kl wordlist (words l) ≡ ok key) same k,
        ground arith,
      )

  -- The phrase of a wallet that was made with the words that are collected from the items gives the
  -- same wallet again, as an array of words and as one text with spaces between the words.
  pub create-from_mnemonic :
      (items : List (Option Word)) (draws : List ℕ) {wallet : Wallet} {phrase : List Word}
      → create kl (collect_words items []) draws ≡ ok (wallet, phrase)
      → (from_mnemonic kl (collect_words items []) (words phrase) ≡ ok wallet)
        × (from_mnemonic kl (collect_words items []) (line (join_words phrase)) ≡ ok wallet)
  unfolding generate_mnemonic from_mnemonic ◌>>=◌
  create-from_mnemonic items draws {wallet} {phrase} h =
      let wordlist = collect_words items [] in
      let (g, key, k, m) = create-parts wordlist draws h in
      let e : from_mnemonic kl wordlist (words phrase) ≡ ok wallet = rw k m in
      let w = pick_words-words wordlist word_count draws (collect_words-words items [] tt) g in
      (
        e,
        from_mnemonic-normalize wordlist (words phrase) (line (join_words phrase))
              (normalize-join_words phrase w ∙ sym (normalize-words phrase w))
            ∙ e,
      )
