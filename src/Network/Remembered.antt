-- ===== src/Network/Remembered.antt =====
-- How long a node of src/net/p2p.js remembers what it has seen.
use Prim.Native.String.{◌++◌ as str_append}
use mineverse.Dict
use mineverse.Dict.{Dict}
use mineverse.Prelude.{
  ℕ, ◌+◌, ◌<◌, String, Bool, true, false, not, ltb, leb, if◌then◌else◌, Option, none, some, List,
  [], ◌∷◌, ◌≡◌, refl, ap, ◌∙◌, arith, Result, err, ok, length, eq_iff,
}
use mineverse.Bank.Contracts.{is_some}
use mineverse.Block.{Block}
use mineverse.Transaction.{Transaction}
use mineverse.Blockchain.{Blockchain}
use mineverse.Blockchain.View.{block_by_hash}
use mineverse.Blockchain.Rules.{ChainError}
use mineverse.Mempool.{Refusal}
use mineverse.Network.{query_chain, Peer, Node, NetEnv}
use mineverse.Network.Peers.{
  drop, broadcast, broadcast_block, broadcast_transaction, mark_seen, prune_each, prune_seen,
}
use mineverse.Network.Messages.{
  after_block, try_block, consider_block, announce, after_chain, handle_chain, after_transaction,
  try_transaction, handle_tx,
}
use mineverse.Network.Unseen.{send-seen}

module _ (key : String) (expiry : ℕ) where
  -- The node has seen the key and forgets it at `expiry`.
  abbrev pub Knows : Node → Type 0
  Knows node = Dict.get node.seen key ≡ some expiry

  pub mark_seen-Knows :
      (now : ℕ) (other : String) (node : Node) → Knows node → Knows (mark_seen now other node).1
  unfolding mark_seen
  mark_seen-Knows now other node h =
      ground (arith, Dict.get-put node.seen other key (now + 600000), eq_iff other key)

  pub if-Knows :
      (b : Bool) (node next : Node) → Knows node → Knows next → Knows (if b then node else next)
  if-Knows true node next h k = h
  if-Knows false node next h k = k

  pub same-Knows :
      {seen next : Dict ℕ}
      → next ≡ seen
      → Dict.get seen key ≡ some expiry
      → Dict.get next key ≡ some expiry
  same-Knows e h = ap (λ d. Dict.get d key) e ∙ h

  prune_each-get :
      (now : ℕ) (keys : List String) (times : List ℕ) (seen : Dict ℕ)
      → Dict.Each (λ time. now < time) key keys times
      → Dict.get (prune_each now keys times seen) key ≡ Dict.get seen key
  unfolding prune_each
  prune_each-get now [] times seen h = refl
  prune_each-get now (k ∷ keys) [] seen h = refl
  prune_each-get now (k ∷ keys) (time ∷ times) seen (here, rest) =
      prune_each-get now keys times (if leb time now then Dict.remove seen k else seen) rest
      ∙ ground (arith, here, Dict.get-remove seen k key, eq_iff k key)

  -- Pruning before the time leaves the key.
  pub prune_seen-Knows :
      (now : ℕ) (node : Node) → now < expiry → Knows node → Knows (prune_seen now node)
  unfolding prune_seen
  prune_seen-Knows now node early h =
      prune_each-get now (Dict.keys node.seen) (Dict.values node.seen) node.seen
        (Dict.Each-keys (λ time. now < time) node.seen key expiry h early)
      ∙ h

  pub broadcast_block-Knows :
      (now : ℕ) (b : Block) (node : Node) → Knows node → Knows (broadcast_block now b node)
  unfolding broadcast_block broadcast
  broadcast_block-Knows now b node h = mark_seen-Knows now _ node h

  pub broadcast_transaction-Knows :
      (now : ℕ) (tx : Transaction) (node : Node)
      → Knows node
      → Knows (broadcast_transaction now tx node)
  unfolding broadcast_transaction broadcast
  broadcast_transaction-Knows now tx node h = mark_seen-Knows now _ node h

  announce-Knows :
      (now : ℕ) (b : Option Block) (node : Node) → Knows node → Knows (announce now b node)
  unfolding announce
  announce-Knows now none node h = h
  announce-Knows now (some b) node h = broadcast_block-Knows now b node h

  module _ (net : NetEnv) (now : ℕ) where
    after_block-Knows :
        (p : Peer) (b : Block) (node : Node) (r : Result ChainError Blockchain)
        → Knows node
        → Knows (after_block now p b node r)
    unfolding after_block
    after_block-Knows p b node (ok chain) h =
        broadcast_block-Knows now b (record node { chain = chain }) h
    after_block-Knows p b node (err x) h = ground (arith, send-seen p query_chain node)

    pub consider_block-Knows :
        (gossip : Bool) (p : Peer) (b : Block) (node : Node)
        → Knows node
        → Knows (consider_block net now gossip p b node)
    unfolding consider_block try_block
    consider_block-Knows gossip p b node h =
        let marked = mark_seen now (str_append "block:" b.hash) node in
        let k = mark_seen-Knows now (str_append "block:" b.hash) node h in
        if-Knows (is_some (block_by_hash node.chain b.hash)) node _ h (
          if-Knows (not gossip) (try_block net now p b node) _ (after_block-Knows p b node _ h) (
            if-Knows marked.0 (try_block net now p b marked.1) marked.1
              (after_block-Knows p b marked.1 _ k) k))

    after_chain-Knows :
        (p : Peer) (node : Node) (r : Result ChainError Blockchain)
        → Knows node
        → Knows (after_chain now p node r)
    unfolding after_chain broadcast
    after_chain-Knows p node (ok chain) h = announce-Knows now _ (record node { chain = chain }) h
    after_chain-Knows p node (err x) h = h

    pub handle_chain-Knows :
        (p : Peer) (blocks : List Block) (node : Node)
        → Knows node
        → Knows (handle_chain net now p blocks node)
    unfolding handle_chain drop
    handle_chain-Knows p blocks node h =
        if-Knows (ltb 1000000 (length blocks)) _ _ h (after_chain-Knows p node _ h)

    after_transaction-Knows :
        (p : Peer) (tx : Transaction) (node : Node) (r : Result Refusal Blockchain)
        → Knows node
        → Knows (after_transaction p tx node r)
    unfolding after_transaction broadcast
    after_transaction-Knows p tx node (ok chain) h = h
    after_transaction-Knows p tx node (err x) h = h

    pub handle_tx-Knows :
        (p : Peer) (tx : Transaction) (node : Node)
        → Knows (mark_seen now (str_append "tx:" tx.hash) node).1
        → Knows (handle_tx net now p tx node)
    unfolding handle_tx try_transaction
    handle_tx-Knows p tx node k =
        let marked = mark_seen now (str_append "tx:" tx.hash) node in
        if-Knows (not marked.0) marked.1 _ k (
          if-Knows (is_some (Dict.get node.chain.mempool.txs tx.hash)) marked.1 _ k
            (after_transaction-Knows p tx marked.1 _ k))
