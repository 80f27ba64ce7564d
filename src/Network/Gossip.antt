-- ===== src/Network/Gossip.antt =====
-- What a node of src/net/p2p.js does once only, and whom it does not talk to.
use Prim.Native.String.{◌++◌ as str_append}
use mathlib.Core.Path.{subst}
use mineverse.Prelude.{
  ℕ, ◌+◌, String, false, none, List, [], ◌∷◌, ◌++◌, ◌≡◌, refl, sym, arith, eq_iff, inl, inr,
  Bool-cases, ltb,
}
use mineverse.Dict
use mineverse.Transaction.{Transaction}
use mineverse.Config.{peer_msg_limit}
use mineverse.Network.{
  rate_limit_exceeded, message_before_handshake, Raw, malformed_json, malformed_message, parsed,
  Peer, DropReason, close_peer, Node, NetEnv,
}
use mineverse.Network.Peers.{set_peer, drop, mark_seen}
use mineverse.Network.Messages.{handle_tx}
use mineverse.Network.Recall.{AreBefore, run-Knows}
use mineverse.Network.Remembered.{Knows, handle_tx-Knows}
use mineverse.Network.Events.{Event, run, is_hello, count_message, handle_parsed, handle_raw}

mark_seen-fresh :
    (now : ℕ) (key : String) (node : Node)
    → Dict.get node.seen key ≡ none
    → Knows key (now + 600000) (mark_seen now key node).1
unfolding mark_seen
mark_seen-fresh now key node h =
    ground (arith, Dict.get-put node.seen key key (now + 600000), eq_iff key key)

mark_seen-again :
    (now : ℕ) (key : String) (expiry : ℕ) (node : Node)
    → Knows key expiry node
    → mark_seen now key node ≡ (false, node)
unfolding mark_seen
mark_seen-again now key expiry node h = ground arith

handle_tx-of-Knows :
    (net : NetEnv) (now : ℕ) (p : Peer) (tx : Transaction) (expiry : ℕ) (node : Node)
    → Knows (str_append "tx:" tx.hash) expiry node
    → handle_tx net now p tx node ≡ node
unfolding handle_tx
handle_tx-of-Knows net now p tx expiry node h =
    rw (mark_seen-again now (str_append "tx:" tx.hash) expiry node h) refl

-- After a transaction was announced whose hash the node had not seen, whatever came of it, and
-- whatever happens to the node in the ten minutes that follow, no announcement with the same hash
-- does anything after that: neither a copy, nor another transaction under that hash.
pub handle_tx-once :
    (net : NetEnv) (now later : ℕ) (p q : Peer) (tx other : Transaction) (events : List (ℕ × Event))
    (node : Node)
    → Dict.get node.seen (str_append "tx:" tx.hash) ≡ none
    → AreBefore (now + 600000) events
    → other.hash ≡ tx.hash
    → handle_tx net later q other (run net events (handle_tx net now p tx node))
      ≡ run net events (handle_tx net now p tx node)
handle_tx-once net now later p q tx other events node new early e =
    let key = str_append "tx:" tx.hash in
    let expiry = now + 600000 in
    let marked = handle_tx-Knows key expiry net now p tx node (mark_seen-fresh now key node new) in
    let after = run net events (handle_tx net now p tx node) in
    handle_tx-of-Knows net later q other expiry after (
      subst (λ h. Knows (str_append "tx:" h) expiry after) (sym e)
        (run-Knows key expiry net events (handle_tx net now p tx node) early marked))

-- What ends a connection: bad text, or another message than a HELLO before the handshake.
abbrev pub IsOutOfTurn : Peer → Raw → Type 0
IsOutOfTurn p malformed_json = Unit
IsOutOfTurn p malformed_message = Unit
IsOutOfTurn p (parsed message) = (p.handshaken ≡ false) × (is_hello message ≡ false)

module _ (net : NetEnv) (now : ℕ) where
  handle_parsed-closes :
      (p : Peer) (raw : Raw) (node : Node)
      → IsOutOfTurn p raw
      → (reason : DropReason) × (handle_parsed net now p raw node ≡ drop p reason node)
  unfolding handle_parsed
  handle_parsed-closes p malformed_json node h = (_, refl)
  handle_parsed-closes p malformed_message node h = (_, refl)
  handle_parsed-closes p (parsed message) node (e, k) = (message_before_handshake, rw (e, k) refl)

  -- The count leaves the rest of a peer alone.
  count_message-turn :
      (p : Peer) (raw : Raw)
      → IsOutOfTurn p raw
      → ((count_message now p).id ≡ p.id) × IsOutOfTurn (count_message now p) raw
  unfolding count_message
  count_message-turn p malformed_json h = (ground arith, tt)
  count_message-turn p malformed_message h = (ground arith, tt)
  count_message-turn p (parsed message) (e, k) = (ground arith, (ground arith, k))

  drop_counted :
      (p : Peer) (reason : DropReason) (node : Node)
      → ((drop (count_message now p) reason node).chain ≡ node.chain)
        × ((drop (count_message now p) reason node).sent ≡ node.sent ++ close_peer p.id reason ∷ [])
  unfolding drop count_message
  drop_counted p reason node = ground arith

  -- Bad text, and a message other than a HELLO before the handshake, end the connection: the peer
  -- is closed, nothing else is sent, and nothing is taken over into the chain.
  pub handle_raw-closes :
      (p : Peer) (raw : Raw) (node : Node)
      → IsOutOfTurn p raw
      → ((handle_raw net now p raw node).chain ≡ node.chain)
        × ((reason : DropReason) × ((handle_raw net now p raw node).sent
              ≡ node.sent ++ close_peer p.id reason ∷ []))
  unfolding handle_raw
  handle_raw-closes p raw node h =
      let counted = count_message now p in
      let (same, turn) = count_message-turn p raw h in
      elim (Bool-cases (ltb peer_msg_limit counted.window_count)) [
        | inl full ↦
            let (c, k) = drop_counted p rate_limit_exceeded node in
            (rw full c, (rate_limit_exceeded, rw full k))
        | inr room ↦
            let (reason, e) = handle_parsed-closes counted raw (set_peer counted node) turn in
            let (c, k) = drop_counted p reason (set_peer counted node) in
            (rw (room, e) c, (reason, rw (room, e) k))
      ]
