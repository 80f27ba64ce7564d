-- ===== src/Network/Peers.antt =====
-- Peer plumbing of src/net/p2p.js: sending, dropping, the table of peers, and the messages seen.
use Prim.Native.String.{◌++◌ as str_append}
use mineverse.Prelude.{
  ℕ, ◌+◌, String, Bool, true, false, ◌&&◌, not, Option, none, some, List, [], ◌∷◌, ◌++◌, leb, ◌==◌,
  if◌then◌else◌,
}
use mineverse.Config.{chain_id}
use mineverse.Dict
use mineverse.Dict.{Dict}
use mineverse.Bank.Contracts.{is_some}
use mineverse.Block.{Block}
use mineverse.Transaction.{Transaction}
use mineverse.Env.{Env}
use mineverse.Blockchain.View.{summary}
use mineverse.Network.{
  text, Message, hello, new_block, new_tx, Peer, DropReason, unresponsive, ping_failed, Action,
  send_to, close_peer, Node,
}

unfoldable pub find_peer : ℕ → List Peer → Option Peer
find_peer id [] = none
find_peer id (p ∷ peers) = if p.id == id then some p else find_peer id peers

-- A write through the reference to a peer record.
unfoldable pub put_peer : Peer → List Peer → List Peer
put_peer p [] = []
put_peer p (q ∷ peers) = if q.id == p.id then p ∷ put_peer p peers else q ∷ put_peer p peers

abbrev pub set_peer : Peer → Node → Node
set_peer p node = record node { peers = put_peer p node.peers }

-- `this.peers.size`
unfoldable pub count_listed : List Peer → ℕ
count_listed [] = 0
count_listed (p ∷ peers) = (if p.is_listed then 1 else 0) + count_listed peers

abbrev pub act : Action → Node → Node
act a node = record node { sent = node.sent ++ a ∷ [] }

-- `send`; a socket that is not open gets nothing.
unfoldable pub send : Peer → Message → Node → Node
send p message node = if p.is_open then act (send_to p.id message) node else node

-- `drop`
unfoldable pub drop : Peer → DropReason → Node → Node
drop p reason node =
    act (close_peer p.id reason) (set_peer (record p { is_open = false; is_listed = false }) node)

abbrev is_except : Option ℕ → ℕ → Bool
is_except none id = false
is_except (some except) id = except == id

-- The packets of a broadcast, in the order of the table.
unfoldable pub packets : Option ℕ → Message → List Peer → List Action
packets except message [] = []
packets except message (p ∷ peers) =
    let rest = packets except message peers in
    if p.is_listed && p.handshaken && not (is_except except p.id) && p.is_open
    then send_to p.id message ∷ rest
    else rest

-- `broadcast`
unfoldable pub broadcast : Option ℕ → Message → Node → Node
unfolding packets
broadcast except message node = record node {
  sent = node.sent ++ packets except message node.peers;
}

-- `markSeen`: whether the key is new, and the node that has it.
unfoldable pub mark_seen : ℕ → String → Node → Bool × Node
mark_seen now key node =
    if is_some (Dict.get node.seen key)
    then (false, node)
    else (true, record node { seen = Dict.put node.seen key (now + 600000) })

-- `pruneSeen`, over the keys of the map.
unfoldable pub prune_each : ℕ → List String → List ℕ → Dict ℕ → Dict ℕ
prune_each now [] times seen = seen
prune_each now (key ∷ keys) [] seen = seen
prune_each now (key ∷ keys) (expiry ∷ times) seen =
    prune_each now keys times (if leb expiry now then Dict.remove seen key else seen)

unfoldable pub prune_seen : ℕ → Node → Node
unfolding prune_each
prune_seen now node = record node {
  seen = prune_each now (Dict.keys node.seen) (Dict.values node.seen) node.seen;
}

-- `broadcastBlock` and `broadcastTransaction`
unfoldable pub broadcast_block : ℕ → Block → Node → Node
unfolding broadcast mark_seen
broadcast_block now block node =
    broadcast none (new_block (some block)) (mark_seen now (str_append "block:" block.hash) node).1

unfoldable pub broadcast_transaction : ℕ → Transaction → Node → Node
unfolding broadcast mark_seen
broadcast_transaction now tx node =
    broadcast none (new_tx (some tx)) (mark_seen now (str_append "tx:" tx.hash) node).1

-- `setupPeer`, but for the callbacks, which are events, and the timer.
unfoldable pub setup_peer : Env → ℕ → Bool → Option String → Option String → Node → Node
unfolding send
setup_peer env now inbound address remote node =
    let p : Peer = record {
      id = node.next_id;
      is_open = true;
      is_listed = true;
      inbound = inbound;
      address = address;
      remote = remote;
      node_id = none;
      handshaken = false;
      alive = true;
      window_start = now;
      window_count = 0;
    } in
    send p
      (hello (
        some (record {
          node_id = text node.node_id;
          chain_id = text chain_id;
          listen_address = text node.self_address;
          summary = some (summary env node.chain);
        })))
      (record node { next_id = node.next_id + 1; peers = node.peers ++ p ∷ [] })

-- `heartbeat` at one peer; `throws` says at which of them a ping fails.
unfoldable pub heartbeat_at : (ℕ → Bool) → Peer → Node → Node
unfolding drop
heartbeat_at throws p node =
    if not p.is_listed
    then node
    else if not p.alive
    then drop p unresponsive node
    else if throws p.id
    then drop (record p { alive = false }) ping_failed node
    else set_peer (record p { alive = false }) node

unfoldable pub heartbeat_each : (ℕ → Bool) → List Peer → Node → Node
unfolding heartbeat_at
heartbeat_each throws [] node = node
heartbeat_each throws (p ∷ peers) node = heartbeat_each throws peers (heartbeat_at throws p node)

unfoldable pub heartbeat : (ℕ → Bool) → Node → Node
unfolding heartbeat_each
heartbeat throws node = heartbeat_each throws node.peers node
