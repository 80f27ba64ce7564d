-- ===== src/Network/Recall.antt =====
-- What a node of src/net/p2p.js remembers while messages and other events reach it.
use mineverse.Dict
use mineverse.Dict.{Dict}
use mineverse.Prelude.{
  ℕ, ◌<◌, String, true, false, not, ◌&&◌, ltb, if◌then◌else◌, none, some, List, [], ◌∷◌, arith,
  Result, err, ok,
}
use mineverse.Block.{Block}
use mineverse.Transaction.{Transaction}
use mineverse.Blockchain.{Blockchain}
use mineverse.Blockchain.Rules.{ChainError}
use mineverse.Mempool.{Refusal}
use mineverse.Config.{peer_msg_limit}
use mineverse.Network.{
  handshake_timeout, Message, hello, ping, pong, tip, chain_of, new_block, new_tx, peers_of,
  unknown, malformed_json, malformed_message, parsed, query_chain, query_tip, query_peers, Raw,
  Peer, Node, NetEnv,
}
use mineverse.Network.Peers.{find_peer, drop, setup_peer, heartbeat, set_peer}
use mineverse.Network.Addresses.{redial}
use mineverse.Network.Messages.{handle_message}
use mineverse.Network.Events.{
  count_message, handle_parsed, handle_raw, after_mining, after_submission, at_peer, gone, Event,
  connection, dial_open, dial_failed, message, pong_frame, closed, errored, timed_out,
  heartbeat_due, prune_due, redial_due, mined, submitted, stop, step, run,
}
use mineverse.Network.Unseen.{
  send-seen, heartbeat_each-seen, redial_each-seen, hear_of_each-seen, handle_hello-seen,
}
use mineverse.Network.Remembered.{
  Knows, mark_seen-Knows, same-Knows, if-Knows, prune_seen-Knows, broadcast_block-Knows,
  broadcast_transaction-Knows, consider_block-Knows, handle_chain-Knows, handle_tx-Knows,
}

-- The times of all events are before a time.
abbrev pub AreBefore : ℕ → List (ℕ × Event) → Type 0
AreBefore expiry [] = Unit
AreBefore expiry ((now, e) ∷ events) = (now < expiry) × AreBefore expiry events

module _ (key : String) (expiry : ℕ) where
  module _ (net : NetEnv) (now : ℕ) where
    handle_message-Knows :
        (p : Peer) (m : Message) (node : Node)
        → Knows key expiry node
        → Knows key expiry (handle_message net now p m node)
    unfolding handle_message drop
    handle_message-Knows p (hello none) node h = h
    handle_message-Knows p (hello (some given)) node h =
        same-Knows key expiry (handle_hello-seen net p given node) h
    handle_message-Knows p ping node h = same-Knows key expiry (send-seen p pong node) h
    handle_message-Knows p pong node h = h
    handle_message-Knows p query_tip node h = same-Knows key expiry (send-seen p _ node) h
    handle_message-Knows p (tip s none) node h = h
    handle_message-Knows p (tip s (some b)) node h =
        consider_block-Knows key expiry net now false p b node h
    handle_message-Knows p query_chain node h = same-Knows key expiry (send-seen p _ node) h
    handle_message-Knows p (chain_of none) node h = h
    handle_message-Knows p (chain_of (some blocks)) node h =
        handle_chain-Knows key expiry net now p blocks node h
    handle_message-Knows p (new_block none) node h = h
    handle_message-Knows p (new_block (some b)) node h =
        consider_block-Knows key expiry net now true p b node h
    handle_message-Knows p (new_tx none) node h = h
    handle_message-Knows p (new_tx (some tx)) node h =
        handle_tx-Knows key expiry net now p tx node (mark_seen-Knows key expiry now _ node h)
    handle_message-Knows p query_peers node h = same-Knows key expiry (send-seen p _ node) h
    handle_message-Knows p (peers_of none) node h = h
    handle_message-Knows p (peers_of (some l)) node h =
        same-Knows key expiry (hear_of_each-seen net _ node) h
    handle_message-Knows p unknown node h = h

    handle_parsed-Knows :
        (p : Peer) (raw : Raw) (node : Node)
        → Knows key expiry node
        → Knows key expiry (handle_parsed net now p raw node)
    unfolding handle_parsed drop
    handle_parsed-Knows p malformed_json node h = h
    handle_parsed-Knows p malformed_message node h = h
    handle_parsed-Knows p (parsed m) node h =
        if-Knows key expiry _ _ _ h (handle_message-Knows p m node h)

    handle_raw-Knows :
        (p : Peer) (raw : Raw) (node : Node)
        → Knows key expiry node
        → Knows key expiry (handle_raw net now p raw node)
    unfolding handle_raw drop
    handle_raw-Knows p raw node h =
        let counted = count_message now p in
        if-Knows key expiry (ltb peer_msg_limit counted.window_count) _ _ h
          (handle_parsed-Knows counted raw (set_peer counted node) h)

    after_mining-Knows :
        (b : Block) (node : Node) (r : Result ChainError Blockchain)
        → Knows key expiry node
        → Knows key expiry (after_mining now b node r)
    unfolding after_mining
    after_mining-Knows b node (ok chain) h =
        broadcast_block-Knows key expiry now b (record node { chain = chain }) h
    after_mining-Knows b node (err x) h = h

    after_submission-Knows :
        (tx : Transaction) (node : Node) (r : Result Refusal Blockchain)
        → Knows key expiry node
        → Knows key expiry (after_submission now tx node r)
    unfolding after_submission
    after_submission-Knows tx node (ok chain) h =
        broadcast_transaction-Knows key expiry now tx (record node { chain = chain }) h
    after_submission-Knows tx node (err x) h = h

    at_peer-Knows :
        (id : ℕ) (f : Peer → Node → Node) (node : Node)
        → Knows key expiry node
        → ((p : Peer) → Knows key expiry (f p node))
        → Knows key expiry (at_peer id f node)
    at_peer-Knows id f node h g =
        elim (find_peer id node.peers)
          as (λ o. Knows key expiry (elim o [ none ↦ node | some p ↦ f p node ])) [
            | none ↦ h
            | some p ↦ g p
          ]

    step-Knows :
        (e : Event) (node : Node)
        → now < expiry
        → Knows key expiry node
        → Knows key expiry (step net now e node)
    unfolding step setup_peer drop heartbeat redial
    step-Knows (connection remote) node early h = ground arith
    step-Knows (dial_open address) node early h = ground arith
    step-Knows (dial_failed address) node early h = h
    step-Knows (message id raw) node early h =
        at_peer-Knows id (λ p. handle_raw net now p raw) node h (λ p. handle_raw-Knows p raw node h)
    step-Knows (pong_frame id) node early h =
        at_peer-Knows id (λ p. set_peer (record p { alive = true })) node h (λ p. h)
    step-Knows (closed id) node early h = at_peer-Knows id (λ p. set_peer (gone p)) node h (λ p. h)
    step-Knows (errored id) node early h = at_peer-Knows id (λ p. set_peer (gone p)) node h (λ p. h)
    step-Knows (timed_out id) node early h =
        at_peer-Knows id
          (λ p n. if not p.handshaken && p.is_listed then drop p handshake_timeout n else n) node h
          (λ p.
            if-Knows key expiry (not p.handshaken && p.is_listed) (drop p handshake_timeout node)
              node h h)
    step-Knows (heartbeat_due throws) node early h =
        same-Knows key expiry (heartbeat_each-seen throws node.peers node) h
    step-Knows prune_due node early h = prune_seen-Knows key expiry now node early h
    step-Knows redial_due node early h =
        if-Knows key expiry node.stopped _ _ h
          (same-Knows key expiry (redial_each-seen net (Dict.keys node.known) node) h)
    step-Knows (mined b) node early h = after_mining-Knows b node _ h
    step-Knows (submitted tx) node early h = after_submission-Knows tx node _ h
    step-Knows stop node early h = h

  -- Whatever happens before that time, the node knows the key.
  pub run-Knows :
      (net : NetEnv) (events : List (ℕ × Event)) (node : Node)
      → AreBefore expiry events
      → Knows key expiry node
      → Knows key expiry (run net events node)
  unfolding run
  run-Knows net [] node early h = h
  run-Knows net ((now, e) ∷ events) node (first, rest) h =
      run-Knows net events (step net now e node) rest (step-Knows net now e node first h)
