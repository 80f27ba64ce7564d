-- ===== src/Network/Kept.antt =====
-- What a node of src/net/p2p.js does without touching its chain.
use mineverse.Dict
use mineverse.Prelude.{
  ℕ, String, Bool, true, take, Option, none, some, List, [], ◌∷◌, ◌≡◌, refl, ◌∙◌, arith,
}
use mineverse.Block.{Block}
use mineverse.Transaction.{Transaction}
use mineverse.Network.{Message, query_tip, query_peers, Peer, Hello, Field, Node, NetEnv}
use mineverse.Network.Peers.{
  send, drop, broadcast, mark_seen, broadcast_block, heartbeat_at, heartbeat_each, set_peer,
}
use mineverse.Network.Addresses.{add_peer_address, connect, redial_at, redial_each}
use mineverse.Network.Messages.{
  cut_id, learn_address, send_each, relay_mempool, handle_hello, announce, hear_of, hear_of_each,
}

-- Sending, dropping and the tables leave the chain alone.
pub send-chain : (p : Peer) (m : Message) (node : Node) → (send p m node).chain ≡ node.chain
unfolding send
send-chain p m node = ground arith

pub mark_seen-chain :
    (now : ℕ) (key : String) (node : Node) → (mark_seen now key node).1.chain ≡ node.chain
unfolding mark_seen
mark_seen-chain now key node = ground arith

pub broadcast_block-chain :
    (now : ℕ) (b : Block) (node : Node) → (broadcast_block now b node).chain ≡ node.chain
unfolding broadcast_block broadcast
broadcast_block-chain now b node = mark_seen-chain now _ node

pub announce-chain :
    (now : ℕ) (b : Option Block) (node : Node) → (announce now b node).chain ≡ node.chain
unfolding announce
announce-chain now none node = refl
announce-chain now (some b) node = broadcast_block-chain now b node

pub heartbeat_at-chain :
    (throws : ℕ → Bool) (p : Peer) (node : Node) → (heartbeat_at throws p node).chain ≡ node.chain
unfolding heartbeat_at drop
heartbeat_at-chain throws p node = ground arith

pub heartbeat_each-chain :
    (throws : ℕ → Bool) (peers : List Peer) (node : Node)
    → (heartbeat_each throws peers node).chain ≡ node.chain
unfolding heartbeat_each
heartbeat_each-chain throws [] node = refl
heartbeat_each-chain throws (p ∷ peers) node =
    heartbeat_each-chain throws peers _ ∙ heartbeat_at-chain throws p node

pub send_each-chain :
    (p : Peer) (txs : List Transaction) (node : Node) → (send_each p txs node).chain ≡ node.chain
unfolding send_each
send_each-chain p [] node = refl
send_each-chain p (tx ∷ txs) node = send_each-chain p txs _ ∙ send-chain p _ node

module _ (net : NetEnv) where
  pub connect-chain :
      (address : String) (node : Node) → (connect net address node).chain ≡ node.chain
  unfolding connect
  connect-chain address node = ground arith

  pub redial_at-chain :
      (address : String) (node : Node) → (redial_at net address node).chain ≡ node.chain
  unfolding redial_at
  redial_at-chain address node = ground (arith, connect-chain address node)

  pub redial_each-chain :
      (addresses : List String) (node : Node) → (redial_each net addresses node).chain ≡ node.chain
  unfolding redial_each
  redial_each-chain [] node = refl
  redial_each-chain (a ∷ addresses) node = redial_each-chain addresses _ ∙ redial_at-chain a node

  pub learn_address-chain :
      (f : Field) (p : Peer) (node : Node) → (learn_address net f p node).chain ≡ node.chain
  unfolding learn_address
  learn_address-chain f p node = ground arith

  pub hear_of-chain : (a : Option String) (node : Node) → (hear_of net a node).chain ≡ node.chain
  unfolding hear_of add_peer_address connect
  hear_of-chain a node = ground arith

  pub hear_of_each-chain :
      (addresses : List (Option String)) (node : Node)
      → (hear_of_each net addresses node).chain ≡ node.chain
  unfolding hear_of_each
  hear_of_each-chain [] node = refl
  hear_of_each-chain (a ∷ addresses) node = hear_of_each-chain addresses _ ∙ hear_of-chain a node

  pub relay_mempool-chain : (p : Peer) (node : Node) → (relay_mempool p node).chain ≡ node.chain
  unfolding relay_mempool
  relay_mempool-chain p node =
      send_each-chain p (take 200 (Dict.values node.chain.mempool.txs)) node

  pub greeting-chain :
      (p : Peer) (f : Field) (node : Node)
      → (relay_mempool p (send p query_peers (send p query_tip (learn_address net f p node)))).chain
        ≡ node.chain
  greeting-chain p f node =
      relay_mempool-chain p _
      ∙ send-chain p query_peers _
      ∙ send-chain p query_tip _
      ∙ learn_address-chain f p node

  pub handle_hello-chain :
      (p : Peer) (h : Hello) (node : Node) → (handle_hello net p h node).chain ≡ node.chain
  unfolding handle_hello drop
  handle_hello-chain p h node =
      let shaken = record p { node_id = cut_id h.node_id; handshaken = true } in
      ground (arith, greeting-chain shaken h.listen_address (set_peer shaken node))
