-- ===== src/Serial/Payloads.antt =====
-- The payloads of src/core/transaction.js as values that are serialised.
use mineverse.Prelude.{String, [], ◌∷◌}
use mineverse.Transaction.{Payload}
use mineverse.Canonical.{Json, integer, array, object, no_fields}
use mineverse.Serial.Values.{
  text, number, optional, fields_json, entries_json, choice_json, items_json,
}

-- `tx.type`
unfoldable pub type_name : Payload → String
type_name (Payload.coinbase to reward fees) = "COINBASE"
type_name (Payload.transfer to amount symbol) = "TRANSFER"
type_name (Payload.create_currency symbol name total_supply liquidity) = "CREATE_CURRENCY"
type_name (Payload.buy symbol amount_in min_out) = "BUY"
type_name (Payload.sell symbol amount_in min_out) = "SELL"
type_name (Payload.create_vote statement duration_ms server_id) = "CREATE_VOTE"
type_name (Payload.cast_vote vote_id choice) = "CAST_VOTE"
type_name (Payload.create_contract contractee cost terms duration_ms) = "CREATE_CONTRACT"
type_name (Payload.accept_contract contract_id) = "ACCEPT_CONTRACT"
type_name (Payload.reject_contract contract_id) = "REJECT_CONTRACT"
type_name (Payload.cancel_contract contract_id) = "CANCEL_CONTRACT"
type_name (Payload.resolve_contract contract_id) = "RESOLVE_CONTRACT"
type_name (Payload.deposit_inventory uuid items server_id) = "DEPOSIT_INVENTORY"
type_name (Payload.withdraw_inventory inventory_id uuid) = "WITHDRAW_INVENTORY"
type_name (Payload.register_uuid uuid) = "REGISTER_UUID"
type_name (Payload.list_item inventory_id price symbol remark) = "LIST_ITEM"
type_name (Payload.cancel_listing listing_id) = "CANCEL_LISTING"
type_name (Payload.buy_listing listing_id) = "BUY_LISTING"
type_name (Payload.register_server server_id name description) = "REGISTER_SERVER"
type_name (Payload.claim_chunk server_id dimension x z name) = "CLAIM_CHUNK"
type_name (Payload.set_chunk_sale server_id dimension x z price) = "SET_CHUNK_SALE"
type_name (Payload.buy_chunk server_id dimension x z max_price) = "BUY_CHUNK"
type_name (Payload.transfer_chunk server_id dimension x z to) = "TRANSFER_CHUNK"
type_name (Payload.create_company symbol name description total_shares liquidity server_id) =
    "CREATE_COMPANY"
type_name (Payload.buy_shares symbol amount_in min_out) = "BUY_SHARES"
type_name (Payload.sell_shares symbol amount_in min_out) = "SELL_SHARES"
type_name (Payload.transfer_shares symbol to amount) = "TRANSFER_SHARES"
type_name (Payload.company_payout symbol to amount memo) = "COMPANY_PAYOUT"
type_name (Payload.pay_dividend symbol amount) = "PAY_DIVIDEND"
type_name (Payload.other name) = name

-- `tx.payload`; one of an unknown type is refused before its hash is read, and is empty here.
unfoldable pub payload_json : Payload → Json
unfolding text optional fields_json items_json
payload_json (Payload.coinbase to reward fees) =
    entries_json (("to", text to) ∷ ("reward", number reward) ∷ ("fees", number fees) ∷ [])
payload_json (Payload.transfer to amount symbol) =
    entries_json (("to", text to) ∷ ("amount", number amount) ∷ ("symbol", text symbol) ∷ [])
payload_json (Payload.create_currency symbol name total_supply liquidity) = entries_json (
    ("symbol", text symbol)
    ∷ ("name", text name)
    ∷ ("totalSupply", number total_supply)
    ∷ ("liquidity", number liquidity)
    ∷ [])
payload_json (Payload.buy symbol amount_in min_out) =
    entries_json
      (("symbol", text symbol) ∷ ("amountIn", number amount_in) ∷ ("minOut", number min_out) ∷ [])
payload_json (Payload.sell symbol amount_in min_out) =
    entries_json
      (("symbol", text symbol) ∷ ("amountIn", number amount_in) ∷ ("minOut", number min_out) ∷ [])
payload_json (Payload.create_vote statement duration_ms server_id) = entries_json (
    ("statement", text statement)
    ∷ ("durationMs", number duration_ms)
    ∷ ("serverId", optional server_id)
    ∷ [])
payload_json (Payload.cast_vote vote_id choice) =
    entries_json (("voteId", text vote_id) ∷ ("choice", choice_json choice) ∷ [])
payload_json (Payload.create_contract contractee cost terms duration_ms) = entries_json (
    ("contractee", text contractee)
    ∷ ("cost", number cost)
    ∷ ("data", optional terms)
    ∷ ("durationMs", number duration_ms)
    ∷ [])
payload_json (Payload.accept_contract contract_id) =
    entries_json (("contractId", text contract_id) ∷ [])
payload_json (Payload.reject_contract contract_id) =
    entries_json (("contractId", text contract_id) ∷ [])
payload_json (Payload.cancel_contract contract_id) =
    entries_json (("contractId", text contract_id) ∷ [])
payload_json (Payload.resolve_contract contract_id) =
    entries_json (("contractId", text contract_id) ∷ [])
payload_json (Payload.deposit_inventory uuid items server_id) = entries_json (
    ("uuid", text uuid)
    ∷ ("items", array (items_json items))
    ∷ ("serverId", optional server_id)
    ∷ [])
payload_json (Payload.withdraw_inventory inventory_id uuid) =
    entries_json (("inventoryId", text inventory_id) ∷ ("uuid", text uuid) ∷ [])
payload_json (Payload.register_uuid uuid) = entries_json (("uuid", text uuid) ∷ [])
payload_json (Payload.list_item inventory_id price symbol remark) = entries_json (
    ("inventoryId", text inventory_id)
    ∷ ("price", number price)
    ∷ ("symbol", text symbol)
    ∷ ("note", optional remark)
    ∷ [])
payload_json (Payload.cancel_listing listing_id) =
    entries_json (("listingId", text listing_id) ∷ [])
payload_json (Payload.buy_listing listing_id) = entries_json (("listingId", text listing_id) ∷ [])
payload_json (Payload.register_server server_id name description) = entries_json (
    ("serverId", text server_id) ∷ ("name", text name) ∷ ("description", optional description) ∷ [])
payload_json (Payload.claim_chunk server_id dimension x z name) = entries_json (
    ("serverId", text server_id)
    ∷ ("dimension", text dimension)
    ∷ ("x", integer x)
    ∷ ("z", integer z)
    ∷ ("name", optional name)
    ∷ [])
payload_json (Payload.set_chunk_sale server_id dimension x z price) = entries_json (
    ("serverId", text server_id)
    ∷ ("dimension", text dimension)
    ∷ ("x", integer x)
    ∷ ("z", integer z)
    ∷ ("price", number price)
    ∷ [])
payload_json (Payload.buy_chunk server_id dimension x z max_price) = entries_json (
    ("serverId", text server_id)
    ∷ ("dimension", text dimension)
    ∷ ("x", integer x)
    ∷ ("z", integer z)
    ∷ ("maxPrice", number max_price)
    ∷ [])
payload_json (Payload.transfer_chunk server_id dimension x z to) = entries_json (
    ("serverId", text server_id)
    ∷ ("dimension", text dimension)
    ∷ ("x", integer x)
    ∷ ("z", integer z)
    ∷ ("to", text to)
    ∷ [])
payload_json (Payload.create_company symbol name description total_shares liquidity server_id) =
    entries_json (
      ("symbol", text symbol)
      ∷ ("name", text name)
      ∷ ("description", optional description)
      ∷ ("totalShares", number total_shares)
      ∷ ("liquidity", number liquidity)
      ∷ ("serverId", optional server_id)
      ∷ [])
payload_json (Payload.buy_shares symbol amount_in min_out) =
    entries_json
      (("symbol", text symbol) ∷ ("amountIn", number amount_in) ∷ ("minOut", number min_out) ∷ [])
payload_json (Payload.sell_shares symbol amount_in min_out) =
    entries_json
      (("symbol", text symbol) ∷ ("amountIn", number amount_in) ∷ ("minOut", number min_out) ∷ [])
payload_json (Payload.transfer_shares symbol to amount) =
    entries_json (("symbol", text symbol) ∷ ("to", text to) ∷ ("amount", number amount) ∷ [])
payload_json (Payload.company_payout symbol to amount memo) = entries_json (
    ("symbol", text symbol)
    ∷ ("to", text to)
    ∷ ("amount", number amount)
    ∷ ("memo", optional memo)
    ∷ [])
payload_json (Payload.pay_dividend symbol amount) =
    entries_json (("symbol", text symbol) ∷ ("amount", number amount) ∷ [])
payload_json (Payload.other name) = object no_fields
