-- ===== src/Network.antt =====
-- src/net/p2p.js: a node, its peers, and the messages between them. The socket library and `URL`
-- are outside the model: what a socket does to the node is an event, and what the node sends is
-- written to `sent`.
pub mod Peers
pub mod Recall
pub mod Remembered
pub mod Unseen
pub mod Addresses
pub mod Messages
pub mod Events
pub mod Chain
pub mod Gossip
pub mod Growth
pub mod Kept
use mineverse.Prelude.{ℕ, String, Bool, false, Option, none, List, []}
use mineverse.Dict
use mineverse.Dict.{Dict}
use mineverse.Transaction.{Transaction}
use mineverse.Block.{Block}
use mineverse.Env.{Env}
use mineverse.Blockchain.{Blockchain}
use mineverse.Blockchain.View.{Summary}

-- A field of a message: a text, `null`, or anything else.
pub data Field : Type 0 where
  text : String → Field
  null_field other_field : Field

pub record Hello : Type 0 where
  pub node_id : Field
  pub chain_id : Field
  pub listen_address : Field
  pub summary : Option Summary

-- `type` with the part of the payload that its handler reads; none where that is missing or of
-- another JavaScript type. An address that is no text is none too.
pub data Message : Type 0 where
  hello : Option Hello → Message
  ping pong query_tip query_chain query_peers : Message
  tip : Option Summary → Option Block → Message
  chain_of : Option (List Block) → Message
  new_block : Option Block → Message
  new_tx : Option Transaction → Message
  peers_of : Option (List (Option String)) → Message
  unknown : Message

-- What a socket receives, as far as `handleRaw` parses it.
pub data Raw : Type 0 where
  malformed_json malformed_message : Raw
  parsed : Message → Raw

-- A peer record. `is_open` is the state of its socket, and `is_listed` says that it is in
-- `this.peers`: a record outlives its entry there, for the callbacks of the socket hold it.
pub record Peer : Type 0 where
  pub id : ℕ
  pub is_open : Bool
  pub is_listed : Bool
  pub inbound : Bool
  pub address : Option String
  pub remote : Option String
  pub node_id : Option String
  pub handshaken : Bool
  pub alive : Bool
  pub window_start : ℕ
  pub window_count : ℕ

pub data DropReason : Type 0 where
  handshake_timeout unresponsive ping_failed rate_limit_exceeded malformed_json : DropReason
  malformed_message message_before_handshake bad_hello chain_id_mismatch self_connection :
      DropReason
  duplicate_peer absurd_chain_length : DropReason

-- What the node does outside itself, in order.
pub data Action : Type 0 where
  send_to : ℕ → Message → Action
  close_peer : ℕ → DropReason → Action
  refuse_connection dial : String → Action

pub record Node : Type 0 where
  pub chain : Blockchain
  pub node_id : String
  pub self_address : String
  pub max_peers : ℕ
  pub next_id : ℕ
  pub peers : List Peer
  -- a set of texts, by the keys
  pub known : Dict (Unit {0})
  pub dialing : Dict (Unit {0})
  pub seen : Dict ℕ
  pub stopped : Bool
  pub sent : List Action

-- The parts of a parsed `URL` that `normalizeAddress` reads.
pub record Url : Type 0 where
  pub protocol : String
  pub hostname : String
  pub port : String

-- The environment, with `new URL(text)`, none where it throws.
pub record NetEnv : Type 0 where
  pub env : Env
  pub parse_url : String → Option Url

-- `new P2PNode(...)`
unfoldable pub new_node : Blockchain → String → String → ℕ → Node
new_node chain node_id self_address max_peers = record {
  chain = chain;
  node_id = node_id;
  self_address = self_address;
  max_peers = max_peers;
  next_id = 0;
  peers = [];
  known = Dict.empty;
  dialing = Dict.empty;
  seen = Dict.empty;
  stopped = false;
  sent = [];
}
