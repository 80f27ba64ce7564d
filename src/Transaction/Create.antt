-- ===== src/Transaction/Create.antt =====
-- `createTransaction` of src/core/transaction.js, and its transactions under `validateTransaction`.
use mineverse.Prelude.{
  ℕ, ◌+◌, ◌≤◌, String, Bool, true, false, not, Option, none, some, ◌≡◌, refl, sym, ◌∙◌, arith,
  Result, ok, err, ◌>>=◌, ◌>>◌, >>=-eq-ok, fail_if, ltb, str_eq, eq_iff,
}
use mathlib.Core.Path.{subst}
use mineverse.Config.{chain_id, max_amount, min_fee, max_tx_future_drift_ms}
use mineverse.Keys.{
  codes, all_hex, not_empty, is_hash, is_valid_public_key, address_from_public_key, verify,
}
use mineverse.Wallet.{KeyLib, KeyError, Wallet, is_valid_private_key, new_wallet, sign}
use mineverse.Canonical.Quote.{Text}
use mineverse.Serial.{signing_payload, tx_hash}
use mineverse.Transaction.{Payload, Transaction}
use mineverse.Transaction.Fields.{TxError, Check, require_int}
use mineverse.Transaction.Validate.{
  validate_payload, validate_signed, by_type, validate_transaction,
}

pub data CreateError : Type 0 where
  unknown_type : CreateError
  bad_field : TxError → CreateError
  not_signed : KeyError → CreateError

-- `SIGNED_TYPES.has(type)`
abbrev pub is_signed_type : Payload → Bool
is_signed_type (Payload.coinbase to reward fees) = false
is_signed_type (Payload.other name) = false
is_signed_type _ = true

abbrev check : Check → Result CreateError (Unit {0})
check (ok u) = ok tt
check (err e) = err (bad_field e)

abbrev signature_of : Result KeyError String → Result CreateError String
signature_of (ok s) = ok s
signature_of (err e) = err (not_signed e)

-- The transaction before it has a hash and a signature.
abbrev pub blank : Wallet → Payload → (nonce fee timestamp : ℕ) → Transaction
blank wallet payload nonce fee timestamp = record {
  chain_id = chain_id;
  from = some wallet.public_key;
  nonce = nonce;
  fee = fee;
  timestamp = timestamp;
  payload = payload;
  hash = "";
  signature = none;
}

module _ (kl : KeyLib) (tx_hash : Transaction → String) where
  unfoldable pub create_transaction :
      Wallet → Payload → (nonce fee timestamp : ℕ) → Result CreateError Transaction
  create_transaction wallet payload nonce fee timestamp = do
    fail_if (not (is_signed_type payload)) unknown_type
    check (require_int nonce 0 max_amount)
    check (require_int fee min_fee max_amount)
    check (require_int timestamp 0 max_amount)
    check (validate_payload payload)
    let tx = blank wallet payload nonce fee timestamp
    signature ← signature_of (sign kl wallet (tx_hash tx))
    ok (record tx { hash = tx_hash tx; signature = some signature })

module _ (kl : KeyLib) where
  -- What elliptic promises of a signature: it is hexadecimal, and verifies under the public key.
  pub record Signs : Type 0 where
    pub hex : (key digest : String) → all_hex (codes (kl.sign_digest key digest)) ≡ true
    pub some_digit : (key digest : String) → not_empty (codes (kl.sign_digest key digest)) ≡ true
    pub verifies :
        (key digest : String)
        → is_valid_private_key kl key ≡ true
        → kl.lib.verify_signature (kl.public_of key) digest (kl.sign_digest key digest) ≡ true

  new_wallet-keys :
      (key : String) {wallet : Wallet}
      → new_wallet kl key ≡ ok wallet
      → (wallet.private_key ≡ key)
        × (wallet.public_key ≡ kl.public_of key)
        × (is_valid_private_key kl key ≡ true)
        × (is_valid_public_key kl.lib (kl.public_of key) ≡ true)
  unfolding new_wallet address_from_public_key
  new_wallet-keys key h =
      let (u1, g1, h1) = >>=-eq-ok _ _ h in
      let (address, g2, h2) = >>=-eq-ok _ _ h1 in
      (ground arith, ground arith, ground arith, ground arith)

  sign-eq :
      (wallet : Wallet) (digest : String) {s : String}
      → sign kl wallet digest ≡ ok s
      → (is_hash digest ≡ true) × (s ≡ kl.sign_digest wallet.private_key digest)
  unfolding sign
  sign-eq wallet digest h =
      let (u1, g1, h1) = >>=-eq-ok _ _ h in
      let (u2, g2, h2) = >>=-eq-ok _ _ h1 in (ground arith, ground arith)

  -- A signature of a wallet's key verifies.
  sign-verify :
      (key digest : String) {wallet : Wallet} {s : String}
      → Signs
      → new_wallet kl key ≡ ok wallet
      → sign kl wallet digest ≡ ok s
      → verify kl.lib wallet.public_key digest (some s) ≡ true
  unfolding verify
  sign-verify key digest {wallet} {s} w n g =
      let (private, public, valid, point) = new_wallet-keys key n in
      let (hash, e) = sign-eq wallet digest g in
      rw
        (
          e,
          private,
          public,
          point,
          w.hex key digest,
          w.some_digit key digest,
          hash,
          w.verifies key digest valid,
        )
        refl

check-eq : (c : Check) {u : Unit {0}} → check c ≡ ok u → c ≡ ok tt
check-eq c h = ground arith

signature_of-eq : (r : Result KeyError String) {s : String} → signature_of r ≡ ok s → r ≡ ok s
signature_of-eq r h = ground arith

require_int-lower :
    (n low : ℕ) {u : Unit {0}}
    → require_int n low max_amount ≡ ok u
    → require_int n 0 max_amount ≡ ok tt
unfolding require_int
require_int-lower n low h = ground arith

require_int-low : (n low : ℕ) {u : Unit {0}} → require_int n low max_amount ≡ ok u → low ≤ n
unfolding require_int
require_int-low n low h = ground arith

module _ (kl : KeyLib) (tx_hash : Transaction → String) (now : ℕ) where
  validate_signed-eq :
      (tx : Transaction) (key : String)
      → tx.from ≡ some key
      → min_fee ≤ tx.fee
      → tx.timestamp ≤ now + max_tx_future_drift_ms
      → is_valid_public_key kl.lib key ≡ true
      → verify kl.lib key tx.hash tx.signature ≡ true
      → validate_signed kl.lib tx_hash now tx ≡ ok tt
  unfolding validate_signed ◌>>=◌
  validate_signed-eq tx key e fee time point good =
      let enough : ltb tx.fee min_fee ≡ false = ground arith in
      let early : ltb (now + max_tx_future_drift_ms) tx.timestamp ≡ false = ground arith in
      rw (enough, early, e, point, good) refl

  by_type-signed :
      (payload : Payload) (tx : Transaction)
      → is_signed_type payload ≡ true
      → by_type kl.lib tx_hash now payload tx ≡ validate_signed kl.lib tx_hash now tx
  by_type-signed payload tx h = ground arith

  validate_transaction-eq :
      (tx : Transaction)
      → tx.chain_id ≡ chain_id
      → require_int tx.nonce 0 max_amount ≡ ok tt
      → require_int tx.fee 0 max_amount ≡ ok tt
      → require_int tx.timestamp 0 max_amount ≡ ok tt
      → validate_payload tx.payload ≡ ok tt
      → tx_hash tx ≡ tx.hash
      → is_signed_type tx.payload ≡ true
      → validate_signed kl.lib tx_hash now tx ≡ ok tt
      → validate_transaction kl.lib tx_hash now tx ≡ ok tt
  unfolding validate_transaction ◌>>=◌
  validate_transaction-eq tx chain nonce fee time payload hash signed good =
      let by = by_type-signed tx.payload tx signed ∙ good in
      let same_chain : str_eq tx.chain_id chain_id ≡ true = (eq_iff _ _).1 chain in
      let same_hash : str_eq tx.hash (tx_hash tx) ≡ true = (eq_iff _ _).1 (sym hash) in
      rw (same_chain, nonce, fee, time, payload, same_hash, by) refl

-- The hash that `txHash` gives, the empty text where it throws. It stands in a transaction only if it
-- is one that `sign` takes.
unfoldable pub hash_of : (Text → String) → Transaction → String
unfolding tx_hash
hash_of sha256 tx = elim (tx_hash sha256 tx) [ none ↦ "" | some h ↦ h ]

-- The hash of a transaction is that of its signing payload, without the hash and the signature.
hash_of-signed :
    (sha256 : Text → String) (tx : Transaction) (hash : String) (signature : Option String)
    → hash_of sha256 (record tx { hash = hash; signature = signature }) ≡ hash_of sha256 tx
unfolding hash_of tx_hash signing_payload
hash_of-signed sha256 tx hash signature = refl

-- Where the signatures of the curve library are hexadecimal and verify under the public key of a valid
-- private key, and with SHA-256 whatever function of texts it is: a transaction that a wallet creates,
-- hashes and signs is valid under that hash, if its timestamp is not too far ahead.
pub create_transaction-valid :
    (kl : KeyLib) (sha256 : Text → String) (now : ℕ) (key : String) (payload : Payload)
    (nonce fee timestamp : ℕ) {wallet : Wallet} {tx : Transaction}
    → Signs kl
    → new_wallet kl key ≡ ok wallet
    → timestamp ≤ now + max_tx_future_drift_ms
    → create_transaction kl (hash_of sha256) wallet payload nonce fee timestamp ≡ ok tx
    → validate_transaction kl.lib (hash_of sha256) now tx ≡ ok tt
unfolding create_transaction
create_transaction-valid kl sha256 now key payload nonce fee timestamp {wallet} {tx} signs made time
      h =
    let (u1, g1, h1) = >>=-eq-ok _ _ h in
    let (u2, g2, h2) = >>=-eq-ok _ _ h1 in
    let (u3, g3, h3) = >>=-eq-ok _ _ h2 in
    let (u4, g4, h4) = >>=-eq-ok _ _ h3 in
    let (u5, g5, h5) = >>=-eq-ok _ _ h4 in
    let (s, g6, h6) = >>=-eq-ok _ _ h5 in
    let before = blank wallet payload nonce fee timestamp in
    let hash = hash_of sha256 before in
    let after : Transaction = record before { hash = hash; signature = some s } in
    let same : after ≡ tx = ground arith in
    let fee_in_range = check-eq _ g3 in
    let (private, public, valid, point) = new_wallet-keys kl key made in
    let verified = sign-verify kl key hash signs made (signature_of-eq _ g6) in
    let good =
      validate_signed-eq kl (hash_of sha256) now after wallet.public_key refl
        (require_int-low fee min_fee fee_in_range) time (rw public point) verified in
    subst (λ (t : Transaction). validate_transaction kl.lib (hash_of sha256) now t ≡ ok tt) same
      (validate_transaction-eq kl (hash_of sha256) now after refl (check-eq _ g2)
        (require_int-lower fee min_fee fee_in_range) (check-eq _ g4) (check-eq _ g5)
        (hash_of-signed sha256 before hash (some s)) (ground arith) good)
