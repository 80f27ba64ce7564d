-- ===== src/Tests/Serials.antt =====
-- Values that are serialised, and a transaction that is created.
use mineverse.Prelude.{
  String, length, ltb, if◌then◌else◌, false, [], ◌∷◌, ◌≡◌, refl, arith, ok, ◌>>=◌,
}
use mineverse.Prelude.Int.{pos}
use mineverse.Prelude.Texts.{same_text, text_leb}
use mineverse.Canonical.{
  Json, integer, string, object, no_fields, field, canonicalize, join_commas, entry_texts,
  insert_entry,
}
use mineverse.Canonical.Quote.{Text, show_int}
use mineverse.Canonical.Order.{in_object, swaps, canonicalize-Reorders}
use mineverse.Serial.{tx_hash, hash_object, signing_payload}
use mineverse.Transaction.{Payload, Transaction}
use mineverse.Transaction.Fields.{require_int, require_address, require_symbol}
use mineverse.Transaction.Validate.{validate_payload, validate_transaction}
use mineverse.Transaction.Create.{Signs, hash_of, create_transaction, create_transaction-valid}
use mineverse.Keys.{is_hash, is_valid_address, address_from_public_key, all_hex}
use mineverse.Wallet.{Wallet, new_wallet, sign}
use mineverse.Tests.Samples.{lib, now, digest, low_hash, alice, bob, alice_key, pay_bob}
use mineverse.Tests.Wallets.{kl}

abbrev sha : Text → String
sha t = if ltb (length t) 200 then digest else low_hash

abbrev one_way : Json
one_way = object (field (98 ∷ []) (integer (pos 1)) (field (97 ∷ []) (string []) no_fields))

abbrev other_way : Json
other_way = object (field (97 ∷ []) (string []) (field (98 ∷ []) (integer (pos 1)) no_fields))

different : same_text (98 ∷ []) (97 ∷ []) ≡ false
unfolding same_text
different = refl

canonicalize-Reorders_example : canonicalize one_way ≡ canonicalize other_way
canonicalize-Reorders_example =
    canonicalize-Reorders one_way other_way
      (in_object _ _ (swaps (98 ∷ []) (97 ∷ []) (integer (pos 1)) (string []) no_fields different))

abbrev wallet : Wallet
wallet = record { private_key = low_hash; public_key = alice_key; address = alice }

made : new_wallet kl low_hash ≡ ok wallet
unfolding new_wallet is_hash address_from_public_key ◌>>=◌
made = refl

signs : Signs kl
unfolding all_hex
signs = record { hex = λ key d. refl; some_digit = λ key d. refl; verifies = λ key d valid. refl }

abbrev created : Transaction
created = record pay_bob { hash = low_hash; timestamp = now }

creation :
    create_transaction kl (hash_of sha) wallet (Payload.transfer bob 300 "MVC") 0 2 now ≡ ok created
unfolding create_transaction require_int require_address require_symbol validate_payload sign
    is_hash is_valid_address ◌>>=◌ hash_of tx_hash hash_object signing_payload canonicalize
    join_commas entry_texts insert_entry text_leb show_int
creation = refl

create_transaction-valid_example : validate_transaction lib (hash_of sha) now created ≡ ok tt
create_transaction-valid_example =
    create_transaction-valid kl sha now low_hash (Payload.transfer bob 300 "MVC") 0 2 now signs made
      (omega arith) creation
