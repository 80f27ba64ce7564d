-- ===== src/Network/Unseen.antt =====
-- What a node of src/net/p2p.js does without touching the hashes that it has seen.
use mineverse.Dict
use mineverse.Prelude.{ℕ, String, Bool, true, take, Option, List, [], ◌∷◌, ◌≡◌, refl, ◌∙◌, arith}
use mineverse.Transaction.{Transaction}
use mineverse.Network.{Message, query_tip, query_peers, Peer, Hello, Field, Node, NetEnv}
use mineverse.Network.Peers.{send, drop, heartbeat_at, heartbeat_each, set_peer}
use mineverse.Network.Addresses.{add_peer_address, connect, redial_at, redial_each}
use mineverse.Network.Messages.{
  cut_id, learn_address, send_each, relay_mempool, handle_hello, hear_of, hear_of_each,
}

-- Sending, dropping and the tables leave what was seen alone.
pub send-seen : (p : Peer) (m : Message) (node : Node) → (send p m node).seen ≡ node.seen
unfolding send
send-seen p m node = ground arith

pub heartbeat_at-seen :
    (throws : ℕ → Bool) (p : Peer) (node : Node) → (heartbeat_at throws p node).seen ≡ node.seen
unfolding heartbeat_at drop
heartbeat_at-seen throws p node = ground arith

pub heartbeat_each-seen :
    (throws : ℕ → Bool) (peers : List Peer) (node : Node)
    → (heartbeat_each throws peers node).seen ≡ node.seen
unfolding heartbeat_each
heartbeat_each-seen throws [] node = refl
heartbeat_each-seen throws (p ∷ peers) node =
    heartbeat_each-seen throws peers _ ∙ heartbeat_at-seen throws p node

pub send_each-seen :
    (p : Peer) (txs : List Transaction) (node : Node) → (send_each p txs node).seen ≡ node.seen
unfolding send_each
send_each-seen p [] node = refl
send_each-seen p (tx ∷ txs) node = send_each-seen p txs _ ∙ send-seen p _ node

module _ (net : NetEnv) where
  pub connect-seen : (address : String) (node : Node) → (connect net address node).seen ≡ node.seen
  unfolding connect
  connect-seen address node = ground arith

  pub redial_at-seen :
      (address : String) (node : Node) → (redial_at net address node).seen ≡ node.seen
  unfolding redial_at
  redial_at-seen address node = ground (arith, connect-seen address node)

  pub redial_each-seen :
      (addresses : List String) (node : Node) → (redial_each net addresses node).seen ≡ node.seen
  unfolding redial_each
  redial_each-seen [] node = refl
  redial_each-seen (a ∷ addresses) node = redial_each-seen addresses _ ∙ redial_at-seen a node

  pub learn_address-seen :
      (f : Field) (p : Peer) (node : Node) → (learn_address net f p node).seen ≡ node.seen
  unfolding learn_address
  learn_address-seen f p node = ground arith

  pub hear_of-seen : (a : Option String) (node : Node) → (hear_of net a node).seen ≡ node.seen
  unfolding hear_of add_peer_address connect
  hear_of-seen a node = ground arith

  pub hear_of_each-seen :
      (addresses : List (Option String)) (node : Node)
      → (hear_of_each net addresses node).seen ≡ node.seen
  unfolding hear_of_each
  hear_of_each-seen [] node = refl
  hear_of_each-seen (a ∷ addresses) node = hear_of_each-seen addresses _ ∙ hear_of-seen a node

  pub relay_mempool-seen : (p : Peer) (node : Node) → (relay_mempool p node).seen ≡ node.seen
  unfolding relay_mempool
  relay_mempool-seen p node = send_each-seen p (take 200 (Dict.values node.chain.mempool.txs)) node

  pub greeting-seen :
      (p : Peer) (f : Field) (node : Node)
      → (relay_mempool p (send p query_peers (send p query_tip (learn_address net f p node)))).seen
        ≡ node.seen
  greeting-seen p f node =
      relay_mempool-seen p _
      ∙ send-seen p query_peers _
      ∙ send-seen p query_tip _
      ∙ learn_address-seen f p node

  pub handle_hello-seen :
      (p : Peer) (h : Hello) (node : Node) → (handle_hello net p h node).seen ≡ node.seen
  unfolding handle_hello drop
  handle_hello-seen p h node =
      let shaken = record p { node_id = cut_id h.node_id; handshaken = true } in
      ground (arith, greeting-seen shaken h.listen_address (set_peer shaken node))
