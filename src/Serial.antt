-- ===== src/Serial.antt =====
-- What is serialised and hashed: `signingPayload` and `txHash` of src/core/transaction.js, `headerOf`
-- and `computeHash` of src/core/block.js, and `hashObject` of src/util/hash.js. SHA-256 of a text is
-- an argument.
pub mod Values
pub mod Payloads
use mineverse.Prelude.{
  ℕ, ◌+◌, ◌-◌, ◌/◌, ◌%◌, String, Option, none, some, List, [], ◌∷◌, ltb, if◌then◌else◌, ◌≡◌, refl,
}
use mineverse.Prelude.Int.{ℤ, pos}
use mineverse.Keys.{codes}
use mineverse.Records.{Choice, Item}
use mineverse.Transaction.{Payload, Transaction}
use mineverse.Block.{Block}
use mineverse.Canonical.Quote.{Text}
use mineverse.Canonical.{
  Json, null_value, undefined, integer, string, array, object, Items, no_items, item, Fields,
  no_fields, field, canonicalize,
}
use Values.{text, number, optional, fields_json, entries_json, choice_json, items_json}
use Payloads.{type_name, payload_json}

abbrev or_null : Option String → Json
or_null none = null_value
or_null (some s) = text s

-- `signingPayload`
unfoldable pub signing_payload : Transaction → Json
unfolding payload_json type_name
signing_payload tx = entries_json (
    ("chainId", text tx.chain_id)
    ∷ ("type", text (type_name tx.payload))
    ∷ ("from", or_null tx.from)
    ∷ ("nonce", number tx.nonce)
    ∷ ("fee", number tx.fee)
    ∷ ("timestamp", number tx.timestamp)
    ∷ ("payload", payload_json tx.payload)
    ∷ [])

-- `headerOf`
unfoldable pub header_of : Block → Json
unfolding text fields_json
header_of block = entries_json (
    ("chainId", text block.chain_id)
    ∷ ("index", number block.index)
    ∷ ("prevHash", text block.prev_hash)
    ∷ ("timestamp", number block.timestamp)
    ∷ ("difficulty", number block.difficulty)
    ∷ ("merkleRoot", text block.merkle_root)
    ∷ ("nonce", number block.nonce)
    ∷ [])

module _ (sha256 : Text → String) where
  -- `hashObject`; none where the serialiser throws.
  unfoldable pub hash_object : Json → Option String
  unfolding canonicalize
  hash_object v = elim (canonicalize v) [ none ↦ none | some t ↦ some (sha256 t) ]

  -- `txHash`
  unfoldable pub tx_hash : Transaction → Option String
  unfolding hash_object signing_payload
  tx_hash tx = hash_object (signing_payload tx)

  -- `computeHash`
  unfoldable pub compute_hash : Block → Option String
  unfolding hash_object header_of
  compute_hash block = hash_object (header_of block)
