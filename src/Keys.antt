-- ===== src/Keys.antt =====
-- src/crypto/keys.js: addresses, and the keys that sign. The curve arithmetic of elliptic and the
-- SHA-256 of Node are an argument.
use Prim.Native.Char.{code}
use Prim.Native.String
use Prim.Native.String.{◌++◌ as str_append}
use mineverse.Prelude.{
  ℕ, String, Bool, true, false, ◌&&◌, Option, none, some, List, [], ◌∷◌, leb, ◌==◌, length,
  if◌then◌else◌,
}

pub record CryptoLib : Type 0 where
  -- `createHash("sha256").update(Buffer.from(hex, "hex")).digest("hex")`
  pub digest_of_hex : String → String
  -- `createHash("sha256").update(text).digest("hex")`
  pub sha256 : String → String
  -- `ec.keyFromPublic(hex, "hex").validate().result`, false if it throws
  pub is_curve_point : String → Bool
  -- `ec.keyFromPublic(hex, "hex").verify(digest, signature)`, false if it throws
  pub verify_signature : (public_key digest signature : String) → Bool

abbrev pub codes : String → List ℕ
codes String.[] = []
codes (String.◌∷◌ c s) = code c ∷ codes s

-- `[0-9a-f]`
unfoldable pub is_hex_digit : ℕ → Bool
is_hex_digit c = if leb 48 c && leb c 57 then true else leb 97 c && leb c 102

unfoldable pub all_hex : List ℕ → Bool
unfolding is_hex_digit
all_hex [] = true
all_hex (c ∷ cs) = is_hex_digit c && all_hex cs

unfoldable pub drop_prefix : List ℕ → List ℕ → Option (List ℕ)
drop_prefix [] cs = some cs
drop_prefix (p ∷ ps) [] = none
drop_prefix (p ∷ ps) (c ∷ cs) = if p == c then drop_prefix ps cs else none

-- A prefix, then so many hexadecimal digits and no more.
unfoldable pub is_prefixed_hex : String → ℕ → String → Bool
unfolding drop_prefix all_hex
is_prefixed_hex prefix digits text = elim (drop_prefix (codes prefix) (codes text)) [
  | none ↦ false
  | some rest ↦ all_hex rest && length rest == digits
]

-- `HEX64`
unfoldable pub is_hash : String → Bool
unfolding is_prefixed_hex
is_hash text = is_prefixed_hex "" 64 text

unfoldable pub is_valid_address : String → Bool
unfolding is_prefixed_hex
is_valid_address text = is_prefixed_hex "mv" 40 text

abbrev pub not_empty : List ℕ → Bool
not_empty [] = false
not_empty (c ∷ cs) = true

module _ (lib : CryptoLib) where
  unfoldable pub is_valid_public_key : String → Bool
  unfolding is_prefixed_hex
  is_valid_public_key hex = is_prefixed_hex "04" 128 hex && lib.is_curve_point hex

  -- `addressFromPublicKey`; none where it throws.
  unfoldable pub address_from_public_key : String → Option String
  unfolding is_valid_public_key
  address_from_public_key hex =
      if is_valid_public_key hex
      then some (str_append "mv" (String.slice (lib.digest_of_hex hex) 0 40))
      else none

  unfoldable pub verify : String → String → Option String → Bool
  unfolding is_valid_public_key is_hash all_hex
  verify public_key digest none = false
  verify public_key digest (some signature) =
      is_valid_public_key public_key
      && all_hex (codes signature)
      && not_empty (codes signature)
      && is_hash digest
      && lib.verify_signature public_key digest signature
