-- ===== src/Network/Messages.antt =====
-- `handleMessage` and `considerBlock` of src/net/p2p.js.
use Prim.Native.String
use Prim.Native.String.{◌++◌ as str_append}
use mineverse.Prelude.{
  ℕ, String, Bool, true, false, ◌&&◌, not, Option, none, some, List, [], ◌∷◌, map, ltb, length,
  ◌==◌, take, str_eq, if◌then◌else◌, Result, ok, err,
}
use mineverse.Config.{chain_id}
use mineverse.Dict
use mineverse.Bank.Contracts.{is_some}
use mineverse.Keys.{codes}
use mineverse.Transaction.{Transaction}
use mineverse.Transaction.Fields.{units}
use mineverse.Block.{Block}
use mineverse.Mempool.{Refusal}
use mineverse.Blockchain.{Blockchain, add_block, replace_chain, submit_transaction}
use mineverse.Blockchain.Rules.{ChainError}
use mineverse.Blockchain.View.{height, latest, block_by_hash, summary}
use mineverse.Network.{
  Field, text, null_field, Hello, Message, hello, ping, pong, query_tip, query_chain, query_peers,
  tip, chain_of, new_block, new_tx, peers_of, unknown, Peer, bad_hello, chain_id_mismatch,
  self_connection, duplicate_peer, absurd_chain_length, Node, NetEnv,
}
use mineverse.Network.Peers.{
  set_peer, count_listed, send, drop, broadcast, mark_seen, broadcast_block,
}
use mineverse.Network.Addresses.{normalize_address, know, add_peer_address, connect}

-- `field === value`
abbrev pub is_text : Field → String → Bool
is_text (text t) value = str_eq t value
is_text _ value = false

-- `other.nodeId === p.nodeId`
abbrev pub same_id : Option String → Field → Bool
same_id (some id) (text t) = str_eq id t
same_id none null_field = true
same_id _ _ = false

-- Another peer in the table has the node id.
unfoldable pub is_taken : ℕ → Field → List Peer → Bool
is_taken id field [] = false
is_taken id field (p ∷ peers) =
    if p.is_listed && not (p.id == id) && same_id p.node_id field
    then true
    else is_taken id field peers

-- `typeof p.nodeId === "string" ? p.nodeId.slice(0, 64) : null`
abbrev pub cut_id : Field → Option String
cut_id (text t) = some (String.slice t 0 64)
cut_id _ = none

abbrev or_address : Option String → String → Option String
or_address none normalized = some normalized
or_address (some address) normalized = some address

-- What a `HELLO` tells of the peer's own address.
unfoldable pub learn_address : NetEnv → Field → Peer → Node → Node
unfolding normalize_address
learn_address net (text t) p node = elim (normalize_address net t) [
  | none ↦ node
  | some normalized ↦
      if str_eq normalized node.self_address
      then node
      else know normalized (set_peer (record p { address = or_address p.address normalized }) node)
]
learn_address net _ p node = node

unfoldable pub send_each : Peer → List Transaction → Node → Node
unfolding send
send_each p [] node = node
send_each p (tx ∷ txs) node = send_each p txs (send p (new_tx (some tx)) node)

-- `relayMempool`
unfoldable pub relay_mempool : Peer → Node → Node
unfolding send_each
relay_mempool p node = send_each p (take 200 (Dict.values node.chain.mempool.txs)) node

unfoldable pub handle_hello : NetEnv → Peer → Hello → Node → Node
unfolding is_taken learn_address relay_mempool
handle_hello net p h node =
    if not (is_text h.chain_id chain_id)
    then drop p chain_id_mismatch node
    else if is_text h.node_id node.node_id
    then drop p self_connection node
    else if is_taken p.id h.node_id node.peers
    then drop p duplicate_peer node
    else let shaken = record p { node_id = cut_id h.node_id; handshaken = true } in
      relay_mempool shaken (
        send shaken query_peers (
          send shaken query_tip (learn_address net h.listen_address shaken (set_peer shaken node))))

-- What follows a block that was not added: the chain of a peer that is ahead is asked for.
abbrev ask_if_ahead : Peer → Block → Node → Node
ask_if_ahead p block node =
    if ltb (height node.chain) block.index then send p query_chain node else node

-- What follows the result of `addBlock`; the chain's own event relays a block that is added.
unfoldable pub after_block : ℕ → Peer → Block → Node → Result ChainError Blockchain → Node
unfolding broadcast_block
after_block now p block node (ok chain) = broadcast_block now block (record node { chain = chain })
after_block now p block node (err e) = ask_if_ahead p block node

-- `considerBlock` from `addBlock` on.
unfoldable pub try_block : NetEnv → ℕ → Peer → Block → Node → Node
unfolding after_block
try_block net now p block node =
    after_block now p block node (add_block net.env now node.chain block)

unfoldable pub consider_block : NetEnv → ℕ → Bool → Peer → Block → Node → Node
unfolding try_block
consider_block net now gossip p block node =
    if is_some (block_by_hash node.chain block.hash)
    then node
    else if not gossip
    then try_block net now p block node
    else let (fresh, marked) = mark_seen now (str_append "block:" block.hash) node in
      if fresh then try_block net now p block marked else marked

-- The latest block, if there is one, to all, as the chain's event does it.
unfoldable pub announce : ℕ → Option Block → Node → Node
announce now none node = node
announce now (some block) node = broadcast_block now block node

-- What follows the result of `replaceChain`.
unfoldable pub after_chain : ℕ → Peer → Node → Result ChainError Blockchain → Node
unfolding announce broadcast
after_chain now p node (ok chain) =
    broadcast (some p.id) (new_block (latest chain))
      (announce now (latest chain) (record node { chain = chain }))
after_chain now p node (err e) = node

unfoldable pub handle_chain : NetEnv → ℕ → Peer → List Block → Node → Node
unfolding after_chain
handle_chain net now p blocks node =
    if ltb 1000000 (length blocks)
    then drop p absurd_chain_length node
    else after_chain now p node (replace_chain net.env now node.chain blocks)

-- `submitTransaction`, and the relay of what was accepted.
unfoldable pub after_transaction : Peer → Transaction → Node → Result Refusal Blockchain → Node
unfolding broadcast
after_transaction p tx node (ok chain) =
    broadcast (some p.id) (new_tx (some tx)) (record node { chain = chain })
after_transaction p tx node (err e) = node

unfoldable pub try_transaction : NetEnv → ℕ → Peer → Transaction → Node → Node
unfolding after_transaction
try_transaction net now p tx node =
    after_transaction p tx node (submit_transaction net.env now node.chain tx)

unfoldable pub handle_tx : NetEnv → ℕ → Peer → Transaction → Node → Node
unfolding try_transaction
handle_tx net now p tx node =
    let (fresh, marked) = mark_seen now (str_append "tx:" tx.hash) node in
    if not fresh
    then marked
    else if is_some (Dict.get node.chain.mempool.txs tx.hash)
    then marked
    else try_transaction net now p tx marked

-- One address of a `PEERS` message.
unfoldable pub hear_of : NetEnv → Option String → Node → Node
unfolding add_peer_address connect
hear_of net none node = node
hear_of net (some address) node =
    if ltb 256 (units (codes address))
    then node
    else let (added, next) = add_peer_address net address node in
      if added && ltb (count_listed next.peers) next.max_peers
      then connect net address next
      else next

unfoldable pub hear_of_each : NetEnv → List (Option String) → Node → Node
unfolding hear_of
hear_of_each net [] node = node
hear_of_each net (address ∷ addresses) node = hear_of_each net addresses (hear_of net address node)

-- `handleMessage`. On these messages no handler throws.
unfoldable pub handle_message : NetEnv → ℕ → Peer → Message → Node → Node
handle_message net now p (hello none) node = drop p bad_hello node
handle_message net now p (hello (some h)) node = handle_hello net p h node
handle_message net now p ping node = send p pong node
handle_message net now p pong node = set_peer (record p { alive = true }) node
handle_message net now p query_tip node =
    send p (tip (some (summary net.env node.chain)) (latest node.chain)) node
handle_message net now p (tip s none) node = node
handle_message net now p (tip s (some block)) node = consider_block net now false p block node
handle_message net now p query_chain node = send p (chain_of (some node.chain.blocks)) node
handle_message net now p (chain_of none) node = node
handle_message net now p (chain_of (some blocks)) node = handle_chain net now p blocks node
handle_message net now p (new_block none) node = node
handle_message net now p (new_block (some block)) node = consider_block net now true p block node
handle_message net now p (new_tx none) node = node
handle_message net now p (new_tx (some tx)) node = handle_tx net now p tx node
handle_message net now p query_peers node =
    send p (peers_of (some (map some (take 64 (Dict.keys node.known))))) node
handle_message net now p (peers_of none) node = node
handle_message net now p (peers_of (some addresses)) node =
    hear_of_each net (take 64 addresses) node
handle_message net now p unknown node = node
