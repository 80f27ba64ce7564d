-- ===== src/Transaction/Fields.antt =====
-- The checks on single fields in src/core/transaction.js. Fields are typed in the model, so a value
-- of another JavaScript type does not occur.

use mineverse.Prelude.{
  ℕ, zero, suc, ◌+◌, String, Bool, true, false, ◌&&◌, not, Option, none, some, List, [], ◌∷◌, ltb,
  leb, ◌==◌, length, if◌then◌else◌, Result, ok, ◌>>◌, fail_if,
}
use mineverse.Prelude.Int.{ℤ, pos, negsuc}
use mineverse.Config.{max_chunk_coord}
use mineverse.Keys.{codes, is_hash, is_valid_address}

pub data TxError : Type 0 where
  out_of_range empty_text text_too_long bad_symbol bad_address bad_hash bad_uuid : TxError
  bad_server_id bad_dimension symbol_is_reserved no_items too_many_items : TxError
  unknown_tx_type wrong_chain_id hash_mismatch coinbase_with_sender coinbase_signed : TxError
  coinbase_with_fee fee_below_minimum timestamp_in_future bad_public_key : TxError
  invalid_signature : TxError

abbrev pub Check : Type 0
Check = Result TxError (Unit {0})

unfoldable pub require_int : ℕ → ℕ → ℕ → Check
require_int value low high = fail_if (if ltb value low then true else ltb high value) out_of_range

-- `value.length`: UTF-16 code units.
unfoldable pub units : List ℕ → ℕ
units [] = 0
units (c ∷ cs) = (if ltb c 65536 then 1 else 2) + units cs

unfoldable pub require_string : String → ℕ → Check
unfolding units
require_string value max_len = do
  fail_if (units (codes value) == 0) empty_text
  fail_if (ltb max_len (units (codes value))) text_too_long

unfoldable pub optional_string : Option String → ℕ → Check
unfolding units
optional_string none max_len = ok tt
optional_string (some value) max_len = fail_if (ltb max_len (units (codes value))) text_too_long

abbrev pub between : ℕ → ℕ → ℕ → Bool
between low high c = leb low c && leb c high

abbrev pub one_of : List ℕ → ℕ → Bool
one_of [] c = false
one_of (d ∷ ds) c = if d == c then true else one_of ds c

unfoldable pub all_chars : (ℕ → Bool) → List ℕ → Bool
all_chars p [] = true
all_chars p (c ∷ cs) = p c && all_chars p cs

-- `^[first][rest]{low,high}$`
unfoldable pub matches : (ℕ → Bool) → (ℕ → Bool) → ℕ → ℕ → List ℕ → Bool
unfolding all_chars
matches first rest low high [] = false
matches first rest low high (c ∷ cs) = first c && all_chars rest cs && between low high (length cs)

abbrev is_upper : ℕ → Bool
is_upper = between 65 90

abbrev is_digit : ℕ → Bool
is_digit = between 48 57

abbrev is_lower : ℕ → Bool
is_lower = between 97 122

abbrev or_else : Bool → Bool → Bool
or_else a b = if a then true else b

-- `SYMBOL_RE`
unfoldable pub is_symbol : String → Bool
unfolding matches
is_symbol text = matches is_upper (λ c. or_else (is_upper c) (is_digit c)) 1 9 (codes text)

-- `SERVER_ID_RE`; 95 is "_", 45 is "-".
unfoldable pub is_server_id : String → Bool
unfolding matches
is_server_id text =
    matches (λ c. or_else (is_lower c) (is_digit c))
      (λ c. or_else (is_lower c) (or_else (is_digit c) (one_of (95 ∷ 45 ∷ []) c))) 2 31 (codes text)

-- `DIMENSION_RE`, which allows ":" and "." too.
unfoldable pub is_dimension : String → Bool
unfolding matches
is_dimension text =
    matches (λ c. or_else (is_lower c) (is_digit c))
      (λ c. or_else (is_lower c) (or_else (is_digit c) (one_of (95 ∷ 58 ∷ 46 ∷ 45 ∷ []) c))) 0 31
      (codes text)

-- `[0-9a-fA-F]`
abbrev is_any_hex : ℕ → Bool
is_any_hex c = or_else (is_digit c) (or_else (between 97 102 c) (between 65 70 c))

-- So many hexadecimal digits, and what follows them.
unfoldable pub skip_hex : ℕ → List ℕ → Option (List ℕ)
skip_hex zero cs = some cs
skip_hex (suc n) [] = none
skip_hex (suc n) (c ∷ cs) = if is_any_hex c then skip_hex n cs else none

-- `-?`
unfoldable pub skip_dash : List ℕ → List ℕ
skip_dash [] = []
skip_dash (c ∷ cs) = if c == 45 then cs else c ∷ cs

-- Groups of digits with optional dashes between them, up to the end of the text.
unfoldable pub hex_groups : List ℕ → List ℕ → Bool
unfolding skip_hex skip_dash
hex_groups [] cs = length cs == 0
hex_groups (n ∷ []) cs = elim (skip_hex n cs) [ none ↦ false | some rest ↦ length rest == 0 ]
hex_groups (n ∷ m ∷ ns) cs = elim (skip_hex n cs) [
  | none ↦ false
  | some rest ↦ hex_groups (m ∷ ns) (skip_dash rest)
]

-- `UUID_RE`
unfoldable pub is_uuid : String → Bool
unfolding hex_groups
is_uuid text = hex_groups (8 ∷ 4 ∷ 4 ∷ 4 ∷ 12 ∷ []) (codes text)

unfoldable pub require_symbol : String → Check
unfolding require_string is_symbol
require_symbol value = do require_string value 10; fail_if (not (is_symbol value)) bad_symbol

unfoldable pub require_address : String → Check
require_address value = fail_if (not (is_valid_address value)) bad_address

unfoldable pub require_hash : String → Check
require_hash value = fail_if (not (is_hash value)) bad_hash

unfoldable pub require_uuid : String → Check
unfolding is_uuid
require_uuid value = fail_if (not (is_uuid value)) bad_uuid

unfoldable pub require_server_id : String → Check
unfolding require_string is_server_id
require_server_id value = do
  require_string value 32
  fail_if (not (is_server_id value)) bad_server_id

unfoldable pub optional_server_id : Option String → Check
unfolding require_server_id
optional_server_id none = ok tt
optional_server_id (some value) = require_server_id value

unfoldable pub require_coord : ℤ → Check
require_coord (pos n) = fail_if (ltb max_chunk_coord n) out_of_range
require_coord (negsuc n) = fail_if (leb max_chunk_coord n) out_of_range

unfoldable pub require_chunk_ref : String → String → ℤ → ℤ → Check
unfolding require_server_id require_string is_dimension require_coord
require_chunk_ref server_id dimension x z = do
  require_server_id server_id
  require_string dimension 32
  fail_if (not (is_dimension dimension)) bad_dimension
  require_coord x
  require_coord z
