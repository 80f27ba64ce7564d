-- ===== src/Wallet/Words.antt =====
-- Words and phrases in src/crypto/mnemonic.js. A character that is not ASCII and does not become
-- ASCII in lower case is left as it is: a word that has one is refused in either case.
use mineverse.Prelude.{
  ℕ, ◌+◌, Bool, true, false, not, ◌&&◌, ◌||◌, Option, none, some, List, [], ◌∷◌, ◌++◌, ◌==◌, ltb,
  leb, length, if◌then◌else◌,
}
use mineverse.Prelude.Texts.{same_text, text_leb}

abbrev pub Word : Type 0
Word = List ℕ

abbrev pub word_count : ℕ
word_count = 12

-- What a caller may give for a phrase: an array of texts, or one text.
pub data Phrase : Type 0 where
  words : List Word → Phrase
  line : Word → Phrase

-- `\s`, which is also what `trim` removes
unfoldable pub is_space : ℕ → Bool
is_space c =
    if ltb c 128
    then c == 32 || (leb 9 c && leb c 13)
    else c == 160
      || c == 5760
      || (leb 8192 c && leb c 8202)
      || c == 8232
      || c == 8233
      || c == 8239
      || c == 8287
      || c == 12288
      || c == 65279

-- A-Z, and the sign for kelvin
unfoldable pub lower_code : ℕ → ℕ
lower_code c = if leb 65 c && leb c 90 then c + 32 else if c == 8490 then 107 else c

unfoldable pub trim_start : Word → Word
unfolding is_space
trim_start [] = []
trim_start (c ∷ cs) = let rest = trim_start cs in if is_space c then rest else c ∷ cs

abbrev is_nil : Word → Bool
is_nil [] = true
is_nil (c ∷ cs) = false

unfoldable pub trim_end : Word → Word
unfolding is_space
trim_end [] = []
trim_end (c ∷ cs) = let rest = trim_end cs in if is_nil rest && is_space c then [] else c ∷ rest

unfoldable pub to_lower : Word → Word
unfolding lower_code
to_lower [] = []
to_lower (c ∷ cs) = lower_code c ∷ to_lower cs

-- `.trim().toLowerCase()`
unfoldable pub clean : Word → Word
unfolding trim_start trim_end to_lower
clean w = to_lower (trim_end (trim_start w))

abbrev push : ℕ → List Word → List Word
push c [] = (c ∷ []) ∷ []
push c (w ∷ ws) = (c ∷ w) ∷ ws

-- `split(/\s+/)`, in or after a run of spaces.
unfoldable pub pieces : Bool → Word → List Word
unfolding is_space
pieces in_run [] = [] ∷ []
pieces in_run (c ∷ cs) =
    let after = pieces true cs in
    let within = pieces false cs in
    if is_space c then (if in_run then after else [] ∷ after) else push c within

-- `.map(...).filter((w) => w.length > 0)`
unfoldable pub clean_all : List Word → List Word
unfolding clean
clean_all [] = []
clean_all (w ∷ ws) = let rest = clean_all ws in if is_nil (clean w) then rest else clean w ∷ rest

-- `normalizeMnemonic`
unfoldable pub normalize : Phrase → List Word
unfolding pieces clean_all
normalize (words ws) = clean_all ws
normalize (line text) = clean_all (pieces false text)

unfoldable pub includes : List Word → Word → Bool
unfolding same_text
includes [] w = false
includes (v ∷ vs) w = same_text v w || includes vs w

-- The loop that looks for every word of a phrase.
unfoldable pub includes_all : List Word → List Word → Bool
unfolding includes
includes_all wordlist [] = true
includes_all wordlist (w ∷ ws) = includes wordlist w && includes_all wordlist ws

-- `phrase.join(" ")`
unfoldable pub join_words : List Word → Word
join_words [] = []
join_words (w ∷ []) = w
join_words (w ∷ v ∷ ws) = w ++ 32 ∷ join_words (v ∷ ws)

-- `[a-z0-9_]`
unfoldable pub is_word_code : ℕ → Bool
is_word_code c = (leb 97 c && leb c 122) || (leb 48 c && leb c 57) || c == 95

unfoldable pub all_word_codes : Word → Bool
unfolding is_word_code
all_word_codes [] = true
all_word_codes (c ∷ cs) = is_word_code c && all_word_codes cs

-- `/^[a-z0-9_]+$/.test(word)`
unfoldable pub is_word : Word → Bool
unfolding all_word_codes
is_word w = not (is_nil w) && all_word_codes w

-- `.replace(/\s+/g, "_")`
unfoldable pub underscores : Bool → Word → Word
unfolding is_space
underscores in_run [] = []
underscores in_run (c ∷ cs) =
    let after = underscores true cs in
    let within = underscores false cs in
    if is_space c then (if in_run then after else 95 ∷ after) else c ∷ within

unfoldable pub insert_word : Word → List Word → List Word
unfolding text_leb
insert_word w [] = w ∷ []
insert_word w (v ∷ vs) = if text_leb w v then w ∷ v ∷ vs else v ∷ insert_word w vs

-- The loop of `loadWordlist` over the names of the items, none for an item without one. The source
-- sorts at the end what is kept sorted here.
unfoldable pub collect_words : List (Option Word) → List Word → List Word
unfolding clean underscores is_word includes insert_word
collect_words [] seen = seen
collect_words (none ∷ items) seen = collect_words items seen
collect_words (some name ∷ items) seen =
    let word = underscores false (clean name) in
    collect_words items
      (if is_word word && not (includes seen word) then insert_word word seen else seen)

-- `loadWordlist`; none where the list is too small, which throws.
unfoldable pub load_wordlist : List (Option Word) → Option (List Word)
unfolding collect_words
load_wordlist items =
    let wordlist = collect_words items [] in
    if ltb (length wordlist) 256 then none else some wordlist
