-- ===== src/Api/Reads.antt =====
-- The handlers of src/api/server.js that only read.
use mineverse.Prelude.{
  ℕ, ◌+◌, ◌*◌, ◌-◌, String, Bool, true, false, ◌&&◌, Option, none, some, List, [], ◌∷◌, map, length,
  str_eq, if◌then◌else◌, take,
}
use mineverse.Prelude.Int.{ℤ}
use mineverse.Config.{chunk_claim_price}
use mineverse.Dict
use mineverse.Dict.{Dict}
use mineverse.Keys.{codes, is_valid_address}
use mineverse.Records.{State, Vote, Contract, Company, Chunk, Server}
use mineverse.Bank.Contracts.{is_active}
use mineverse.Land.{chunk_key}
use mineverse.Transaction.Fields.{all_chars, between}
use mineverse.Block.{Block}
use mineverse.Blockchain.{Blockchain}
use mineverse.Blockchain.View.{
  Lookup, height, block_at, block_by_hash, get_transaction, get_receipt, summary,
}
use mineverse.Api.{
  Query, Body, Response, answer, bad, Host, ApiEnv, not_found, throws, invalid_address,
  not_registered, invalid_coordinates,
}
use mineverse.Api.Views.{
  currency_view, company_view, server_summary, with_items, account_view, peer_info,
}
use mineverse.Api.Lists.{
  filter, text_is, filter_text, votes_of_query, contracts_of_query, inventories_of_query,
  listings_of_query, reserved_of, safe_integer, chunks_of_query, slice_of_query, limit_of, rank,
}
use mineverse.Api.Quotes.{answer_quote, answer_company_quote}

-- `if (!found) return bad(res, ..., 404)`
abbrev or_404 {ℓ} : {A : Type ℓ} → Option A → (A → Body) → Response
or_404 none body = bad 404 not_found
or_404 (some a) body = answer (body a)

-- `if (!keys.isValidAddress(address)) return bad(...)`
abbrev for_address : String → Body → Response
for_address address body = if is_valid_address address then answer body else bad 400 invalid_address

-- `Number(id)`, for decimal digits
unfoldable pub number_of : ℕ → List ℕ → ℕ
number_of n [] = n
number_of n (c ∷ cs) = number_of (n * 10 + (c - 48)) cs

abbrev not_empty : List ℕ → Bool
not_empty [] = false
not_empty (c ∷ cs) = true

-- GET /block/:id: a number is a position, anything else a hash.
unfoldable pub find_block : Blockchain → String → Option Block
unfolding number_of block_at block_by_hash
find_block chain id =
    if not_empty (codes id) && all_chars (between 48 57) (codes id)
    then block_at chain (number_of 0 (codes id))
    else block_by_hash chain id

-- GET /tx/:hash
unfoldable pub answer_tx : Blockchain → String → Response
unfolding get_transaction get_receipt
answer_tx chain hash = elim (get_transaction chain hash) [
  | Lookup.found confirmed ↦ answer (Body.confirmed confirmed (get_receipt chain hash))
  | Lookup.throws ↦ bad 400 throws
  | Lookup.not_found ↦ or_404 (Dict.get chain.mempool.txs hash) Body.pending
]

-- `Object.entries(d)`
abbrev entries : List String → List ℕ → List (String × ℕ)
entries [] values = []
entries (k ∷ keys) [] = []
entries (k ∷ keys) (v ∷ values) = (k, v) ∷ entries keys values

abbrev ranked : (String → String → Bool) → Dict ℕ → List (String × ℕ)
ranked locale_leb d = rank locale_leb (entries (Dict.keys d) (Dict.values d))

-- GET /server/:id
unfoldable pub server_body : State → Server → Body
unfolding server_summary company_view
server_body s server =
    Body.server_of (server_summary server)
      (filter (λ (v : Vote). text_is v.server_id server.id && v.running) (Dict.values s.votes))
      (map company_view
        (filter (λ (c : Company). text_is c.server_id server.id) (Dict.values s.companies)))

-- GET /chunk/:serverId/:dimension/:x/:z
unfoldable pub answer_chunk : State → String → String → Option ℤ → Option ℤ → Response
unfolding chunk_key
answer_chunk s server_id dimension (some x) (some z) =
    elim (Dict.get s.chunks (chunk_key server_id dimension x z)) [
      | none ↦ answer (
          Body.unclaimed (chunk_key server_id dimension x z) server_id dimension x z
            chunk_claim_price)
      | some chunk ↦ answer (Body.chunk_of chunk)
    ]
answer_chunk s server_id dimension _ _ = bad 400 invalid_coordinates

abbrev pub nonce_or_zero : State → String → ℕ
nonce_or_zero s address = elim (Dict.get s.accounts address) [ none ↦ 0 | some acct ↦ acct.nonce ]

-- The chunks that an address owns, on any server.
abbrev land_of : State → String → List Chunk
land_of s address = filter (λ (c : Chunk). str_eq c.owner address) (Dict.values s.chunks)

unfoldable pub active_contracts : List Contract → List Contract
unfolding filter
active_contracts list = filter (λ (c : Contract). is_active c.status) list

abbrev with_count : List Chunk → Body
with_count list = Body.chunks_of (length list) list

unfoldable pub answer_query : ApiEnv → Host → Query → Response
unfolding find_block answer_tx currency_view company_view server_summary with_items account_view
    peer_info filter filter_text votes_of_query contracts_of_query inventories_of_query
    listings_of_query reserved_of safe_integer chunks_of_query slice_of_query limit_of rank
    server_body answer_chunk active_contracts answer_quote answer_company_quote
answer_query api host Query.status =
    let info = summary api.net.env host.node.chain in
    answer (
      if host.has_p2p
      then Body.status_of info (length (peer_info host.node.peers)) (some host.node.node_id)
      else Body.status_of info 0 none)
answer_query api host (Query.chain from to) =
    answer (Body.chain_of (height host.node.chain) (slice_of_query from to host.node.chain.blocks))
answer_query api host (Query.block id) = or_404 (find_block host.node.chain id) Body.block_of
answer_query api host (Query.tx hash) = answer_tx host.node.chain hash
answer_query api host Query.mempool =
    let txs = Dict.values host.node.chain.mempool.txs in answer (Body.mempool_of (length txs) txs)
answer_query api host (Query.account address) =
    for_address address (Body.account_of (account_view host.node.chain.state address))
answer_query api host (Query.nonce address) =
    for_address address (Body.nonce_of address (nonce_or_zero host.node.chain.state address))
answer_query api host (Query.uuid uuid) = elim (Dict.get host.node.chain.state.uuids uuid) [
  | none ↦ bad 404 not_registered
  | some address ↦
      if str_eq address ""
      then bad 404 not_registered
      else answer (Body.account_of (account_view host.node.chain.state address))
]
answer_query api host Query.currencies =
    answer (Body.currencies_of (map currency_view (Dict.values host.node.chain.state.currencies)))
answer_query api host (Query.currency symbol) =
    or_404 (Dict.get host.node.chain.state.currencies symbol)
      (λ cur. Body.currency_of (currency_view cur))
answer_query api host (Query.quote symbol side given) =
    answer_quote host.node.chain.state symbol side given
answer_query api host (Query.votes server_id running) =
    answer
      (Body.votes_of (votes_of_query server_id running (Dict.values host.node.chain.state.votes)))
answer_query api host (Query.vote id) =
    or_404 (Dict.get host.node.chain.state.votes id) Body.vote_of
answer_query api host (Query.contracts address status) = answer (
    Body.contracts_of
      (contracts_of_query address status (Dict.values host.node.chain.state.contracts)))
answer_query api host (Query.contract id) =
    or_404 (Dict.get host.node.chain.state.contracts id) Body.contract_of
answer_query api host (Query.inventories address uuid claimed) = answer (
    Body.inventories_of
      (inventories_of_query address uuid claimed (Dict.values host.node.chain.state.inventories)))
answer_query api host (Query.inventory id) =
    or_404 (Dict.get host.node.chain.state.inventories id) Body.inventory_of
answer_query api host (Query.listings q) = answer (
    Body.listings_of (
      map (with_items host.node.chain.state)
        (listings_of_query q (Dict.values host.node.chain.state.listings))))
answer_query api host (Query.listing id) =
    or_404 (Dict.get host.node.chain.state.listings id)
      (λ listing. Body.listing_of (with_items host.node.chain.state listing))
answer_query api host (Query.reserved address) =
    for_address address
      (Body.inventories_of (reserved_of address (Dict.values host.node.chain.state.inventories)))
answer_query api host Query.servers =
    answer (Body.servers_of (map server_summary (Dict.values host.node.chain.state.servers)))
answer_query api host (Query.server id) =
    or_404 (Dict.get host.node.chain.state.servers id) (server_body host.node.chain.state)
answer_query api host (Query.chunks id q) =
    or_404 (Dict.get host.node.chain.state.servers id)
      (λ server. with_count (chunks_of_query id q (Dict.values host.node.chain.state.chunks)))
answer_query api host (Query.leaderboard id limit) =
    or_404 (Dict.get host.node.chain.state.servers id)
      (λ server. Body.ranking (take (limit_of limit) (ranked api.locale_leb server.owners)))
answer_query api host (Query.chunk server_id dimension x z) =
    answer_chunk host.node.chain.state server_id dimension (safe_integer x) (safe_integer z)
answer_query api host (Query.land address) =
    for_address address (with_count (land_of host.node.chain.state address))
answer_query api host (Query.companies server_id) = answer (
    Body.companies_of (
      map company_view (
        filter_text server_id (λ (c : Company). text_is c.server_id)
          (Dict.values host.node.chain.state.companies))))
answer_query api host (Query.company symbol) =
    or_404 (Dict.get host.node.chain.state.companies symbol) (λ company.
      Body.company_of (company_view company) (take 100 (ranked api.locale_leb company.holders)))
answer_query api host (Query.company_quote symbol side given) =
    answer_company_quote host.node.chain.state symbol side given
answer_query api host Query.bank = answer (
    Body.bank_of host.node.chain.state.bank
      (length (active_contracts (Dict.values host.node.chain.state.contracts))))
answer_query api host Query.peers = answer (
    if host.has_p2p
    then Body.peers_of (peer_info host.node.peers) (Dict.keys host.node.known)
    else Body.peers_of [] [])
