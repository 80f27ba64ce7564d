-- ===== src/Network/Chain.antt =====
-- The chain of a node under whatever its peers send.
use Prim.Native.String.{◌++◌ as str_append}
use mineverse.Dict
use mineverse.Prelude.{
  ℕ, true, false, not, ◌&&◌, ltb, if◌then◌else◌, none, some, List, [], ◌∷◌, ◌≡◌, refl, arith,
  Result, err, ok,
}
use mineverse.Block.{Block}
use mineverse.Transaction.{Transaction}
use mineverse.Blockchain.{Blockchain, add_block, submit_transaction}
use mineverse.Blockchain.Rules.{ChainError}
use mineverse.Mempool.{Refusal}
use mineverse.Config.{peer_msg_limit}
use mineverse.Network.{
  rate_limit_exceeded, handshake_timeout, Message, hello, ping, pong, tip, chain_of, new_block,
  new_tx, peers_of, unknown, malformed_json, malformed_message, parsed, query_chain, query_tip,
  query_peers, Raw, Peer, Node, NetEnv,
}
use mineverse.Network.Peers.{
  find_peer, drop, broadcast, broadcast_transaction, setup_peer, heartbeat, set_peer, prune_seen,
}
use mineverse.Network.Addresses.{undial, redial_each, redial}
use mineverse.Network.Messages.{handle_message}
use mineverse.Network.Events.{
  count_message, handle_parsed, handle_raw, after_mining, after_submission, at_peer, gone, Event,
  connection, dial_open, dial_failed, message, pong_frame, closed, errored, timed_out,
  heartbeat_due, prune_due, redial_due, mined, submitted, stop, step, run,
}
use mineverse.Network.Kept.{
  send-chain, mark_seen-chain, heartbeat_each-chain, redial_each-chain, hear_of_each-chain,
  handle_hello-chain,
}
use mineverse.Network.Growth.{
  Advances, Advances-refl, Advances-trans, Grows, Grows-refl, Grows-same, if-Grows, added-Grows,
  consider_block-Grows, handle_chain-Grows, submitted-Grows, handle_tx-Grows,
}

module _ (net : NetEnv) (now : ℕ) where
  handle_message-Grows :
      (p : Peer) (m : Message) (node : Node) → Grows net now node (handle_message net now p m node)
  unfolding handle_message drop
  handle_message-Grows p (hello none) node = Grows-same net now node _ refl
  handle_message-Grows p (hello (some h)) node =
      Grows-same net now node _ (handle_hello-chain net p h node)
  handle_message-Grows p ping node = Grows-same net now node _ (send-chain p pong node)
  handle_message-Grows p pong node = Grows-same net now node _ refl
  handle_message-Grows p query_tip node = Grows-same net now node _ (send-chain p _ node)
  handle_message-Grows p (tip s none) node = Grows-refl net now node
  handle_message-Grows p (tip s (some b)) node = consider_block-Grows net now false p b node
  handle_message-Grows p query_chain node = Grows-same net now node _ (send-chain p _ node)
  handle_message-Grows p (chain_of none) node = Grows-refl net now node
  handle_message-Grows p (chain_of (some blocks)) node = handle_chain-Grows net now p blocks node
  handle_message-Grows p (new_block none) node = Grows-refl net now node
  handle_message-Grows p (new_block (some b)) node = consider_block-Grows net now true p b node
  handle_message-Grows p (new_tx none) node = Grows-refl net now node
  handle_message-Grows p (new_tx (some tx)) node = handle_tx-Grows net now p tx node
  handle_message-Grows p query_peers node = Grows-same net now node _ (send-chain p _ node)
  handle_message-Grows p (peers_of none) node = Grows-refl net now node
  handle_message-Grows p (peers_of (some l)) node =
      Grows-same net now node _ (hear_of_each-chain net _ node)
  handle_message-Grows p unknown node = Grows-refl net now node

  handle_parsed-Grows :
      (p : Peer) (raw : Raw) (node : Node) → Grows net now node (handle_parsed net now p raw node)
  unfolding handle_parsed drop
  handle_parsed-Grows p malformed_json node = Grows-same net now node _ refl
  handle_parsed-Grows p malformed_message node = Grows-same net now node _ refl
  handle_parsed-Grows p (parsed m) node =
      if-Grows net now _ node _ _ (Grows-same net now node _ refl) (handle_message-Grows p m node)

  handle_raw-Grows :
      (p : Peer) (raw : Raw) (node : Node) → Grows net now node (handle_raw net now p raw node)
  unfolding handle_raw drop Grows
  handle_raw-Grows p raw node =
      let counted = count_message now p in
      let full = drop counted rate_limit_exceeded node in
      if-Grows net now (ltb peer_msg_limit counted.window_count) node full _
        (Grows-same net now node full refl)
        (handle_parsed-Grows counted raw (set_peer counted node))

  after_mining-Grows :
      (b : Block) (node : Node) (r : Result ChainError Blockchain)
      → add_block net.env now node.chain b ≡ r
      → Grows net now node (after_mining now b node r)
  unfolding after_mining
  after_mining-Grows b node (ok chain) e = added-Grows net now b node chain e
  after_mining-Grows b node (err x) e = Grows-refl net now node

  after_submission-Grows :
      (tx : Transaction) (node : Node) (r : Result Refusal Blockchain)
      → submit_transaction net.env now node.chain tx ≡ r
      → Grows net now node (after_submission now tx node r)
  unfolding after_submission broadcast_transaction broadcast
  after_submission-Grows tx node (ok chain) e =
      submitted-Grows net now tx node _ chain e
        (mark_seen-chain now (str_append "tx:" tx.hash) (record node { chain = chain }))
  after_submission-Grows tx node (err x) e = Grows-refl net now node

  at_peer-Grows :
      (id : ℕ) (f : Peer → Node → Node) (node : Node)
      → ((p : Peer) → Grows net now node (f p node))
      → Grows net now node (at_peer id f node)
  at_peer-Grows id f node g =
      elim (find_peer id node.peers)
        as (λ o. Grows net now node (elim o [ none ↦ node | some p ↦ f p node ])) [
          | none ↦ Grows-refl net now node
          | some p ↦ g p
        ]

  step-Grows : (e : Event) (node : Node) → Grows net now node (step net now e node)
  unfolding step setup_peer drop heartbeat prune_seen redial
  step-Grows (connection remote) node =
      Grows-same net now node (step net now (connection remote) node) (ground arith)
  step-Grows (dial_open address) node =
      Grows-same net now node (step net now (dial_open address) node) (ground arith)
  step-Grows (dial_failed address) node = Grows-same net now node (undial address node) refl
  step-Grows (message id raw) node =
      at_peer-Grows id (λ p. handle_raw net now p raw) node (λ p. handle_raw-Grows p raw node)
  step-Grows (pong_frame id) node =
      at_peer-Grows id (λ p. set_peer (record p { alive = true })) node
        (λ p. Grows-same net now node (set_peer (record p { alive = true }) node) refl)
  step-Grows (closed id) node =
      at_peer-Grows id (λ p. set_peer (gone p)) node
        (λ p. Grows-same net now node (set_peer (gone p) node) refl)
  step-Grows (errored id) node =
      at_peer-Grows id (λ p. set_peer (gone p)) node
        (λ p. Grows-same net now node (set_peer (gone p) node) refl)
  step-Grows (timed_out id) node =
      at_peer-Grows id
        (λ p n. if not p.handshaken && p.is_listed then drop p handshake_timeout n else n) node
        (λ p.
          if-Grows net now (not p.handshaken && p.is_listed) node (drop p handshake_timeout node)
            node (Grows-same net now node (drop p handshake_timeout node) refl)
            (Grows-refl net now node))
  step-Grows (heartbeat_due throws) node =
      Grows-same net now node (heartbeat throws node) (heartbeat_each-chain throws node.peers node)
  step-Grows prune_due node = Grows-same net now node (prune_seen now node) refl
  step-Grows redial_due node = if-Grows net now node.stopped node node _ (Grows-refl net now node) (
      Grows-same net now node (redial_each net (Dict.keys node.known) node)
        (redial_each-chain net (Dict.keys node.known) node))
  step-Grows (mined b) node = after_mining-Grows b node _ refl
  step-Grows (submitted tx) node = after_submission-Grows tx node _ refl
  step-Grows stop node = Grows-same net now node (step net now stop node) refl

-- Whatever happens to a node, whatever its peers send it and when, its chain stays the replay of its
-- blocks if it was before, and the work of the chain does not fall.
pub run-Advances :
    (net : NetEnv) (events : List (ℕ × Event)) (node : Node)
    → Advances net.env.lib node.chain (run net events node).chain
unfolding run Grows
run-Advances net [] node = Advances-refl net.env.lib node.chain
run-Advances net ((now, e) ∷ events) node =
    let next = step net now e node in
    Advances-trans net.env.lib node.chain next.chain _ (step-Grows net now e node)
      (run-Advances net events next)
