-- ===== src/Wallet/Phrases.antt =====
-- Reading a phrase back (`normalizeMnemonic` of src/crypto/mnemonic.js).
use mineverse.Prelude.{ℕ, true, false, List, [], ◌∷◌, ◌++◌, ◌≡◌, refl, ap, ◌∙◌, arith, All}
use mineverse.Wallet.Words.{
  Word, words, line, is_space, lower_code, trim_start, trim_end, to_lower, clean, pieces, clean_all,
  normalize, join_words, is_word_code, all_word_codes, is_word,
}

code-plain : (c : ℕ) → is_word_code c ≡ true → (is_space c ≡ false) × (lower_code c ≡ c)
unfolding is_word_code is_space lower_code
code-plain c h = ground arith

trim_start-word : (w : Word) → all_word_codes w ≡ true → trim_start w ≡ w
unfolding trim_start all_word_codes
trim_start-word [] h = refl
trim_start-word (c ∷ cs) h = ground (arith, code-plain c)

trim_end-word : (w : Word) → all_word_codes w ≡ true → trim_end w ≡ w
unfolding trim_end all_word_codes
trim_end-word [] h = refl
trim_end-word (c ∷ cs) h = ground (arith, code-plain c, trim_end-word cs)

to_lower-word : (w : Word) → all_word_codes w ≡ true → to_lower w ≡ w
unfolding to_lower all_word_codes
to_lower-word [] h = refl
to_lower-word (c ∷ cs) h = ground (arith, code-plain c, to_lower-word cs)

clean-word : (w : Word) → all_word_codes w ≡ true → clean w ≡ w
unfolding clean
clean-word w h = rw (trim_start-word w h, trim_end-word w h) (to_lower-word w h)

-- What each word of a phrase is.
abbrev pub IsWord : Word → Type 0
IsWord w = is_word w ≡ true

clean_all-words : (ws : List Word) → All IsWord ws → clean_all ws ≡ ws
unfolding clean_all is_word
clean_all-words [] h = refl
clean_all-words ([] ∷ ws) h = cc
clean_all-words ((c ∷ cs) ∷ ws) h = rw (clean-word (c ∷ cs) h.0, clean_all-words ws h.1) refl

-- A word and a space come off the front of a text.
pieces-word :
    (w rest : Word) → all_word_codes w ≡ true → pieces false (w ++ 32 ∷ rest) ≡ w ∷ pieces true rest
unfolding pieces all_word_codes is_space
pieces-word [] rest h = refl
pieces-word (c ∷ cs) rest h = ground (arith, code-plain c, pieces-word cs rest)

pieces-last : (w : Word) → all_word_codes w ≡ true → pieces false w ≡ w ∷ []
unfolding pieces all_word_codes
pieces-last [] h = refl
pieces-last (c ∷ cs) h = ground (arith, code-plain c, pieces-last cs)

-- After a run of spaces a word begins as at the start.
pieces-start :
    (c : ℕ) (cs : Word) → is_word_code c ≡ true → pieces true (c ∷ cs) ≡ pieces false (c ∷ cs)
unfolding pieces
pieces-start c cs h = ground (arith, code-plain c)

pieces-after :
    (w : Word) (ws : List Word)
    → IsWord w
    → pieces true (join_words (w ∷ ws)) ≡ pieces false (join_words (w ∷ ws))
unfolding join_words is_word all_word_codes
pieces-after [] ws h = cc
pieces-after (c ∷ cs) [] h = pieces-start c cs (ground arith)
pieces-after (c ∷ cs) (v ∷ ws) h = pieces-start c _ (ground arith)

IsWord-codes : (w : Word) → IsWord w → all_word_codes w ≡ true
unfolding is_word
IsWord-codes w h = ground arith

pieces-join :
    (w : Word) (ws : List Word) → All IsWord (w ∷ ws) → pieces false (join_words (w ∷ ws)) ≡ w ∷ ws
unfolding join_words
pieces-join w [] h = pieces-last w (IsWord-codes w h.0)
pieces-join w (v ∷ ws) h =
    pieces-word w (join_words (v ∷ ws)) (IsWord-codes w h.0)
    ∙ ap (λ l. w ∷ l) (pieces-after v ws h.1.0 ∙ pieces-join v ws h.1)

-- Words that were joined by spaces come apart as they were.
pub normalize-join_words : (ws : List Word) → All IsWord ws → normalize (line (join_words ws)) ≡ ws
unfolding normalize join_words pieces clean_all clean trim_start trim_end to_lower
normalize-join_words [] h = refl
normalize-join_words (w ∷ ws) h = rw (pieces-join w ws h) (clean_all-words (w ∷ ws) h)

pub normalize-words : (ws : List Word) → All IsWord ws → normalize (words ws) ≡ ws
unfolding normalize
normalize-words ws h = clean_all-words ws h
