-- ===== src/Land.antt =====
-- src/core/land.js: servers, and the chunks that belong to them.
mod Keys
unfoldable pub use Keys.{chunk_key}
pub mod Escrow
pub mod Nonces
pub mod Supply
use mineverse.Prelude.{
  ℕ, ◌+◌, ◌-◌, String, true, false, Bool, Option, none, some, List, [], ◌∷◌, not, str_eq, ltb, ◌==◌,
  if◌then◌else◌, ok, err, ◌>>=◌, ◌>>◌, fail_if, require,
}
use mineverse.Prelude.Int.{ℤ}
use mineverse.Config.{
  server_registration_price, chunk_claim_price, land_fee_bps, max_chunks_per_owner,
}
use mineverse.Dict
use mineverse.Dict.{Dict}
use mineverse.Records.{
  Server, Chunk, State, Context, Receipt, chunk_sale, type_error, unknown_server,
  chunk_is_unclaimed, chunk_of_another_address, too_many_chunks, server_already_registered,
  chunk_is_already_owned, chunk_not_for_sale, you_already_own_this_chunk, price_above_max,
  chunk_to_yourself,
}
use mineverse.Ledger.{Call, held, credit_native, debit_native, fee_of}
use mineverse.Bank.{credit_treasury}
use mineverse.Bank.Contracts.{is_some, text_or_empty}

-- The names that every object inherits: `state.servers[name]` is a function or an object for
-- them. `SERVER_ID_RE` lets "constructor" through.
abbrev inherited_names : List String
inherited_names =
    "constructor" ∷ "__defineGetter__" ∷ "__defineSetter__" ∷ "hasOwnProperty" ∷ "__lookupGetter__"
    ∷ "__lookupSetter__" ∷ "isPrototypeOf" ∷ "propertyIsEnumerable" ∷ "toString" ∷ "valueOf"
    ∷ "__proto__" ∷ "toLocaleString" ∷ []

unfoldable pub contains : String → List String → Bool
contains k [] = false
contains k (j ∷ l) = if str_eq j k then true else contains k l

unfoldable pub is_inherited : String → Bool
unfolding contains
is_inherited k = contains k inherited_names

-- `state.servers[id]` as a condition
unfoldable pub has_server : State → String → Bool
has_server s id = if is_some (Dict.get s.servers id) then true else is_inherited id

-- `requireServer`: none is the object that an inherited name leads to.
unfoldable pub require_server : State → String → Call (Option Server)
unfolding has_server
require_server s id = do fail_if (not (has_server s id)) unknown_server; ok (Dict.get s.servers id)

unfoldable pub require_owned_chunk : String → String → State → Call Chunk
require_owned_chunk key from s = do
  chunk ← require (Dict.get s.chunks key) chunk_is_unclaimed
  fail_if (not (str_eq chunk.owner from)) chunk_of_another_address
  ok chunk

-- `addHolding` with a delta of 1 or -1. A tally that would fall below 0 is deleted, as one at 0 is.
pub data Delta : Type 0 where
  gain loss : Delta

abbrev pub shift : Delta → ℕ → ℕ
shift gain n = n + 1
shift loss n = n - 1

-- What is stored of a tally: 0 deletes it.
unfoldable pub store_tally : Dict ℕ → String → ℕ → Dict ℕ
store_tally owners address next =
    if next == 0 then Dict.remove owners address else Dict.put owners address next

-- An object without `owners` throws.
unfoldable pub add_holding : Option Server → String → Delta → Call Server
add_holding none address delta = err type_error
add_holding (some server) address delta = do
  let next = shift delta (held server.owners address)
  fail_if (ltb max_chunks_per_owner next) too_many_chunks
  ok (record server { owners = store_tally server.owners address next })

abbrev pub set_server : String → Server → State → State
set_server id server s = record s { servers = Dict.put s.servers id server }

abbrev pub set_chunk : String → Chunk → State → State
set_chunk key chunk s = record s { chunks = Dict.put s.chunks key chunk }

unfoldable pub move_chunk : String → Chunk → String → ℕ → State → Call State
move_chunk key chunk to timestamp s = do
  given ← add_holding (Dict.get s.servers chunk.server_id) chunk.owner loss
  taken ← add_holding (some given) to gain
  ok (
      set_chunk key
        (record chunk { owner = to; acquired_at = timestamp; for_sale = false; price = 0 })
        (set_server chunk.server_id taken s))

unfoldable pub register_server :
    String → String → Option String → Context → String → State → Call State
register_server server_id name description ctx from s = do
  fail_if (has_server s server_id) server_already_registered
  s1 ← debit_native from server_registration_price s
  s2 ← credit_treasury server_registration_price s1
  ok (
      set_server server_id
        (record {
          id = server_id;
          name = name;
          description = text_or_empty description;
          owner = from;
          registered_at = ctx.timestamp;
          chunk_count = 0;
          owners = Dict.empty;
        })
        s2)

unfoldable pub claim_chunk :
    String → String → ℤ → ℤ → Option String → Context → String → State → Call State
claim_chunk server_id dimension x z name ctx from s = do
  server ← require_server s server_id
  let key = chunk_key server_id dimension x z
  fail_if (is_some (Dict.get s.chunks key)) chunk_is_already_owned
  s1 ← debit_native from chunk_claim_price s
  s2 ← credit_treasury chunk_claim_price s1
  tallied ← add_holding server from gain
  ok (
      set_chunk key
        (record {
          key = key;
          server_id = server_id;
          dimension = dimension;
          x = x;
          z = z;
          owner = from;
          name = text_or_empty name;
          claimed_at = ctx.timestamp;
          acquired_at = ctx.timestamp;
          for_sale = false;
          price = 0;
        })
        (set_server server_id (record tallied { chunk_count = tallied.chunk_count + 1 }) s2))

unfoldable pub set_chunk_sale : String → String → ℤ → ℤ → ℕ → String → State → Call State
set_chunk_sale server_id dimension x z price from s = do
  let key = chunk_key server_id dimension x z
  chunk ← require_owned_chunk key from s
  ok (set_chunk key (record chunk { for_sale = ltb 0 price; price = price }) s)

unfoldable pub buy_chunk :
    String → String → ℤ → ℤ → ℕ → String → Context → String → State → Call (State × List Receipt)
buy_chunk server_id dimension x z max_price hash ctx from s = do
  let key = chunk_key server_id dimension x z
  chunk ← require (Dict.get s.chunks key) chunk_is_unclaimed
  fail_if (not chunk.for_sale) chunk_not_for_sale
  fail_if (str_eq chunk.owner from) you_already_own_this_chunk
  fail_if (ltb max_price chunk.price) price_above_max
  let fee = fee_of chunk.price land_fee_bps
  s1 ← debit_native from chunk.price s
  s2 ← credit_native chunk.owner (chunk.price - fee) s1
  s3 ← credit_treasury fee s2
  s4 ← move_chunk key chunk from ctx.timestamp s3
  ok (s4, chunk_sale hash key chunk.owner chunk.price fee ∷ [])

unfoldable pub transfer_chunk :
    String → String → ℤ → ℤ → String → Context → String → State → Call State
transfer_chunk server_id dimension x z to ctx from s = do
  fail_if (str_eq to from) chunk_to_yourself
  let key = chunk_key server_id dimension x z
  chunk ← require_owned_chunk key from s
  move_chunk key chunk to ctx.timestamp s
