-- ===== src/Api/Writes.antt =====
-- The handlers of src/api/server.js that may change the node, and what goes before all handlers.
use mineverse.Prelude.{
  ℕ, ◌+◌, String, Bool, true, false, not, Option, none, some, List, leb, str_eq, if◌then◌else◌,
  Result, ok, err,
}
use mineverse.Prelude.Int.{ℤ, pos}
use mineverse.Config.{chain_id, min_fee}
use mineverse.Dict
use mineverse.Keys.{address_from_public_key}
use mineverse.Transaction.{Payload, Transaction}
use mineverse.Transaction.Fields.{Check}
use mineverse.Transaction.Validate.{validate_payload}
use mineverse.Mempool.{Refusal, count_from}
use mineverse.Blockchain.{Blockchain, submit_transaction}
use mineverse.Blockchain.View.{height}
use mineverse.Blockchain.Storage.{save}
use mineverse.Network.{Node}
use mineverse.Network.Peers.{broadcast_transaction}
use mineverse.Network.Addresses.{add_peer_address, connect}
use mineverse.Wallet.{Wallet, KeyError, create}
use mineverse.Wallet.Words.{Word}
use mineverse.Api.{
  Command, Request, Body, Response, answer, bad, Host, ApiEnv, invalid_token, not_found,
  invalid_address, invalid_key, p2p_disabled, not_saved, key_generation_disabled, bad_payload,
  refused, no_wallet,
}
use mineverse.Api.Lists.{safe_integer}
use mineverse.Api.Reads.{answer_query, nonce_or_zero}

-- `Number.isSafeInteger(fee) && fee >= cfg.MIN_FEE ? fee : cfg.MIN_FEE`
unfoldable pub fee_or_least : Option ℤ → ℕ
unfolding safe_integer
fee_or_least given = elim (safe_integer given) [
  | some (pos fee) ↦ if leb min_fee fee then fee else min_fee
  | _ ↦ min_fee
]

-- The transaction that POST /tx/build makes; its hash and signature are left out, as empty ones.
unfoldable pub unsigned_tx :
    ApiEnv → ℕ → Blockchain → String → String → Payload → Option ℤ → Transaction
unfolding fee_or_least count_from
unsigned_tx api now chain public_key address payload fee = record {
  chain_id = chain_id;
  from = some public_key;
  nonce =
      nonce_or_zero chain.state address
      + count_from api.net.env.lib address (Dict.values chain.mempool.txs);
  fee = fee_or_least fee;
  timestamp = now;
  payload = payload;
  hash = "";
  signature = none;
}

abbrev after_check : ApiEnv → Transaction → String → Check → Response
after_check api tx address (ok u) = answer (Body.built tx (api.net.env.tx_hash tx) address)
after_check api tx address (err e) = bad 400 (bad_payload e)

-- POST /tx/build
unfoldable pub answer_build : ApiEnv → ℕ → Blockchain → String → Payload → Option ℤ → Response
unfolding unsigned_tx
answer_build api now chain public_key payload fee =
    elim (address_from_public_key api.net.env.lib public_key) [
      | none ↦ bad 400 invalid_key
      | some address ↦
          after_check api (unsigned_tx api now chain public_key address payload fee) address
            (validate_payload payload)
    ]

-- POST /tx/submit, after `submitTransaction`
unfoldable pub after_submitting :
    ℕ → Transaction → Host → Result Refusal Blockchain → Response × Host
unfolding broadcast_transaction
after_submitting now tx host (err e) = (bad 400 (refused e), host)
after_submitting now tx host (ok chain) =
    let node = record host.node { chain = chain } in
    (
      answer (Body.accepted tx.hash),
      record host { node = if host.has_p2p then broadcast_transaction now tx node else node },
    )

-- POST /peers/add, by whether the address was taken
unfoldable pub after_adding : ApiEnv → String → Host → Bool × Node → Response × Host
unfolding connect
after_adding api address host (true, node) =
    (answer (Body.peer_added address), record host { node = connect api.net address node })
after_adding api address host (false, node) = (bad 400 invalid_address, record host { node = node })

unfoldable pub answer_add_peer : ApiEnv → Option String → Host → Response × Host
unfolding add_peer_address after_adding
answer_add_peer api given host =
    if not host.has_p2p then (bad 409 p2p_disabled, host) else elim given [
      | none ↦ (bad 400 invalid_address, host)
      | some address ↦ after_adding api address host (add_peer_address api.net address host.node)
    ]

-- POST /snapshot
unfoldable pub answer_snapshot : Bool → Host → Response × Host
unfolding save height
answer_snapshot throws host = elim (save host.target host.node.chain) [
  | none ↦ (answer (Body.saved false (height host.node.chain)), host)
  | some snapshot ↦
      if throws
      then (bad 500 not_saved, host)
      else (answer (Body.saved true (height host.node.chain)), record host { file = some snapshot })
]

-- POST /wallet/new
abbrev after_creating : Result KeyError (Wallet × List Word) → Response
after_creating (ok (wallet, phrase)) = answer (Body.wallet_of wallet phrase)
after_creating (err e) = bad 400 (no_wallet e)

unfoldable pub answer_new_wallet : ApiEnv → List ℕ → Host → Response
answer_new_wallet api draws host =
    if not host.allow_key_generation
    then bad 403 key_generation_disabled
    else after_creating (create api.kl api.wordlist draws)

unfoldable pub answer_command : ApiEnv → ℕ → Host → Command → Response × Host
unfolding answer_build after_submitting answer_add_peer answer_snapshot answer_new_wallet
answer_command api now host (Command.build public_key payload fee) =
    (answer_build api now host.node.chain public_key payload fee, host)
answer_command api now host (Command.submit tx) =
    after_submitting now tx host (submit_transaction api.net.env now host.node.chain tx)
answer_command api now host (Command.add_peer address) = answer_add_peer api address host
answer_command api now host (Command.snapshot throws) = answer_snapshot throws host
answer_command api now host (Command.new_wallet draws) = (answer_new_wallet api draws host, host)

-- `if (!apiToken) return next()`, and the comparison with the header
unfoldable pub passes_gate : Option String → Option String → Bool
passes_gate none provided = true
passes_gate (some token) provided =
    if str_eq token ""
    then true
    else elim provided [ none ↦ false | some given ↦ str_eq given token ]

-- One request, with its `x-api-token` header.
unfoldable pub serve : ApiEnv → ℕ → Option String → Request → Host → Response × Host
unfolding passes_gate answer_query answer_command
serve api now token (Request.get query) host = (answer_query api host query, host)
serve api now token (Request.post command) host =
    if passes_gate host.api_token token
    then answer_command api now host command
    else (bad 401 invalid_token, host)
serve api now token (Request.other is_get) host =
    if (if is_get then true else passes_gate host.api_token token)
    then (bad 404 not_found, host)
    else (bad 401 invalid_token, host)
