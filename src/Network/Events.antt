-- ===== src/Network/Events.antt =====
-- What sockets and timers do to the node of src/net/p2p.js, as events, one after the other.
use mineverse.Prelude.{
  ℕ, ◌+◌, ◌-◌, String, Bool, true, false, not, ◌&&◌, none, some, List, [], ◌∷◌, ltb, leb,
  if◌then◌else◌, Result, ok, err,
}
use mineverse.Config.{peer_msg_window_ms, peer_msg_limit}
use mineverse.Block.{Block}
use mineverse.Transaction.{Transaction}
use mineverse.Mempool.{Refusal}
use mineverse.Blockchain.Rules.{ChainError}
use mineverse.Blockchain.{Blockchain, add_block, submit_transaction}
use mineverse.Network.{
  Message, hello, Raw, malformed_json, malformed_message, parsed, Peer, handshake_timeout,
  rate_limit_exceeded, message_before_handshake, refuse_connection, Node, NetEnv, DropReason,
}
use mineverse.Network.Peers.{
  find_peer, set_peer, count_listed, act, drop, setup_peer, prune_seen, heartbeat, broadcast_block,
  broadcast_transaction,
}
use mineverse.Network.Addresses.{undial, redial}
use mineverse.Network.Messages.{handle_message}

abbrev pub is_hello : Message → Bool
is_hello (hello h) = true
is_hello _ = false

-- The rate limit's window, a new one where the old one is over, with one message more.
unfoldable pub count_message : ℕ → Peer → Peer
count_message now p =
    if ltb peer_msg_window_ms (now - p.window_start)
    then record p { window_start = now; window_count = 1 }
    else record p { window_count = p.window_count + 1 }

-- `handleRaw` after the rate limit.
unfoldable pub handle_parsed : NetEnv → ℕ → Peer → Raw → Node → Node
unfolding handle_message
handle_parsed net now p malformed_json node = drop p DropReason.malformed_json node
handle_parsed net now p malformed_message node = drop p DropReason.malformed_message node
handle_parsed net now p (parsed message) node =
    if not p.handshaken && not (is_hello message)
    then drop p message_before_handshake node
    else handle_message net now p message node

-- `handleRaw`
unfoldable pub handle_raw : NetEnv → ℕ → Peer → Raw → Node → Node
unfolding count_message handle_parsed
handle_raw net now p raw node =
    let counted = count_message now p in
    if ltb peer_msg_limit counted.window_count
    then drop counted rate_limit_exceeded node
    else handle_parsed net now counted raw (set_peer counted node)

pub data Event : Type 0 where
  -- the server's "connection"
  connection : (remote : String) → Event
  -- "open", "error" and "close" of a socket that the node dialled
  dial_open dial_failed : (address : String) → Event
  message : (id : ℕ) → Raw → Event
  pong_frame closed errored timed_out : (id : ℕ) → Event
  -- the timers
  heartbeat_due : (throws : ℕ → Bool) → Event
  prune_due redial_due : Event
  -- a block that was mined here, and a transaction that the HTTP server accepts
  mined : Block → Event
  submitted : Transaction → Event
  stop : Event

-- The record of a socket that is gone.
abbrev pub gone : Peer → Peer
gone p = record p { is_open = false; is_listed = false }

-- What is done to a peer, where there is one with the id.
abbrev pub at_peer : ℕ → (Peer → Node → Node) → Node → Node
at_peer id f node = elim (find_peer id node.peers) [ none ↦ node | some p ↦ f p node ]

unfoldable pub close_all : List Peer → List Peer
close_all [] = []
close_all (p ∷ peers) = gone p ∷ close_all peers

unfoldable pub after_mining : ℕ → Block → Node → Result ChainError Blockchain → Node
after_mining now block node (ok chain) = broadcast_block now block (record node { chain = chain })
after_mining now block node (err e) = node

unfoldable pub after_submission : ℕ → Transaction → Node → Result Refusal Blockchain → Node
after_submission now tx node (ok chain) =
    broadcast_transaction now tx (record node { chain = chain })
after_submission now tx node (err e) = node

unfoldable pub step : NetEnv → ℕ → Event → Node → Node
unfolding handle_raw close_all after_mining after_submission
step net now (connection remote) node =
    if leb node.max_peers (count_listed node.peers)
    then act (refuse_connection remote) node
    else setup_peer net.env now true none (some remote) node
step net now (dial_open address) node =
    setup_peer net.env now false (some address) none (undial address node)
step net now (dial_failed address) node = undial address node
step net now (message id raw) node = at_peer id (λ p. handle_raw net now p raw) node
step net now (pong_frame id) node = at_peer id (λ p. set_peer (record p { alive = true })) node
step net now (closed id) node = at_peer id (λ p. set_peer (gone p)) node
step net now (errored id) node = at_peer id (λ p. set_peer (gone p)) node
step net now (timed_out id) node =
    at_peer id
      (λ p next. if not p.handshaken && p.is_listed then drop p handshake_timeout next else next)
      node
step net now (heartbeat_due throws) node = heartbeat throws node
step net now prune_due node = prune_seen now node
step net now redial_due node = redial net node
step net now (mined block) node =
    after_mining now block node (add_block net.env now node.chain block)
step net now (submitted tx) node =
    after_submission now tx node (submit_transaction net.env now node.chain tx)
step net now stop node = record node { stopped = true; peers = close_all node.peers }

-- Events at their times, from the first on.
unfoldable pub run : NetEnv → List (ℕ × Event) → Node → Node
unfolding step
run net [] node = node
run net ((now, e) ∷ events) node = run net events (step net now e node)
