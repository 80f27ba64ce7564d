-- ===== src/Network/Growth.antt =====
-- The chain of a node of src/net/p2p.js under each kind of message.
use mathlib.Core.Path.{subst}
use Prim.Native.String.{◌++◌ as str_append}
use mineverse.Dict
use mineverse.Prelude.{
  ℕ, ◌≤◌, Bool, true, false, not, if◌then◌else◌, List, ◌≡◌, refl, sym, arith, Result, err, ok,
}
use mineverse.Keys.{CryptoLib}
use mineverse.Block.{Block}
use mineverse.Transaction.{Transaction}
use mineverse.Blockchain.{Blockchain, add_block, replace_chain, submit_transaction}
use mineverse.Bank.Contracts.{is_some}
use mineverse.Blockchain.View.{block_by_hash}
use mineverse.Blockchain.Rules.{ChainError}
use mineverse.Mempool.{Refusal}
use mineverse.Blockchain.History.{
  IsReplay, add_block-IsReplay, replace_chain-IsReplay, submit_transaction-IsReplay, add_block-work,
  submit_transaction-work,
}
use mineverse.Network.{query_chain, Peer, Node, NetEnv}
use mineverse.Network.Peers.{drop, broadcast, mark_seen, broadcast_block}
use mineverse.Network.Messages.{
  after_block, after_chain, after_transaction, try_block, consider_block, handle_chain,
  try_transaction, handle_tx,
}
use mineverse.Network.Kept.{send-chain, mark_seen-chain, broadcast_block-chain, announce-chain}

-- The chain stays the replay of its blocks, and its work does not fall.
pub record Advances (lib : CryptoLib) (old new : Blockchain) : Type 0 where
  pub replay : IsReplay lib old → IsReplay lib new
  pub work : old.work ≤ new.work

module _ (lib : CryptoLib) where
  pub Advances-refl : (chain : Blockchain) → Advances lib chain chain
  Advances-refl chain = record { replay = λ w. w; work = omega arith }

  pub Advances-eq : (old new : Blockchain) → new ≡ old → Advances lib old new
  Advances-eq old new e = subst (Advances lib old) (sym e) (Advances-refl old)

  pub Advances-trans : (a b c : Blockchain) → Advances lib a b → Advances lib b c → Advances lib a c
  Advances-trans a b c h k = record {
    replay = λ w. k.replay (h.replay w);
    work = omega (arith, h.work, k.work);
  }

module _ (net : NetEnv) (now : ℕ) where
  abbrev pub lib : CryptoLib
  lib = net.env.lib

  unfoldable pub Grows : Node → Node → Type 0
  Grows node next = Advances lib node.chain next.chain

  pub Grows-refl : (node : Node) → Grows node node
  unfolding Grows
  Grows-refl node = Advances-refl lib node.chain

  pub Grows-same : (node next : Node) → next.chain ≡ node.chain → Grows node next
  unfolding Grows
  Grows-same node next e = Advances-eq lib node.chain next.chain e

  pub if-Grows :
      (b : Bool) (node n m : Node) → Grows node n → Grows node m → Grows node (if b then n else m)
  if-Grows true node n m h k = h
  if-Grows false node n m h k = k

  pub added-Grows :
      (b : Block) (node : Node) (chain : Blockchain)
      → add_block net.env now node.chain b ≡ ok chain
      → Grows node (broadcast_block now b (record node { chain = chain }))
  unfolding Grows
  added-Grows b node chain e =
      Advances-trans lib node.chain chain _
        (record {
          replay = λ w. add_block-IsReplay net.env now node.chain b w e;
          work = omega (arith, add_block-work net.env now node.chain b e);
        })
        (Advances-eq lib chain _ (broadcast_block-chain now b _))

  pub after_block-Grows :
      (p : Peer) (b : Block) (node : Node) (r : Result ChainError Blockchain)
      → add_block net.env now node.chain b ≡ r
      → Grows node (after_block now p b node r)
  unfolding after_block Grows
  after_block-Grows p b node (ok chain) e = added-Grows b node chain e
  after_block-Grows p b node (err x) e =
      Advances-eq lib node.chain _ (ground (arith, send-chain p query_chain node))

  pub try_block-Grows :
      (p : Peer) (b : Block) (node : Node) → Grows node (try_block net now p b node)
  unfolding try_block
  try_block-Grows p b node = after_block-Grows p b node _ refl

  pub marked_block-Grows :
      (p : Peer) (b : Block) (node marked : Node)
      → marked.chain ≡ node.chain
      → Grows node (try_block net now p b marked)
  unfolding Grows
  marked_block-Grows p b node marked e =
      Advances-trans lib node.chain marked.chain _ (Advances-eq lib node.chain marked.chain e)
        (try_block-Grows p b marked)

  pub consider_block-Grows :
      (gossip : Bool) (p : Peer) (b : Block) (node : Node)
      → Grows node (consider_block net now gossip p b node)
  unfolding consider_block
  consider_block-Grows gossip p b node =
      let marked = mark_seen now (str_append "block:" b.hash) node in
      let e = mark_seen-chain now (str_append "block:" b.hash) node in
      if-Grows (is_some (block_by_hash node.chain b.hash)) node node _ (Grows-refl node) (
        if-Grows (not gossip) node (try_block net now p b node) _ (try_block-Grows p b node) (
          if-Grows marked.0 node (try_block net now p b marked.1) marked.1
            (marked_block-Grows p b node marked.1 e) (Grows-same node marked.1 e)))

  pub after_chain-Grows :
      (p : Peer) (blocks : List Block) (node : Node) (r : Result ChainError Blockchain)
      → replace_chain net.env now node.chain blocks ≡ r
      → Grows node (after_chain now p node r)
  unfolding after_chain broadcast Grows
  after_chain-Grows p blocks node (ok chain) e =
      let (w, same, more) = replace_chain-IsReplay net.env now node.chain blocks e in
      Advances-trans lib node.chain chain _
        (record { replay = λ old. w; work = omega (arith, more) })
        (Advances-eq lib chain _ (announce-chain now _ _))
  after_chain-Grows p blocks node (err x) e = Advances-eq lib node.chain _ refl

  pub handle_chain-Grows :
      (p : Peer) (blocks : List Block) (node : Node)
      → Grows node (handle_chain net now p blocks node)
  unfolding handle_chain drop
  handle_chain-Grows p blocks node =
      if-Grows _ node _ _ (Grows-same node _ refl) (after_chain-Grows p blocks node _ refl)

  pub submitted-Grows :
      (tx : Transaction) (node next : Node) (chain : Blockchain)
      → submit_transaction net.env now node.chain tx ≡ ok chain
      → next.chain ≡ chain
      → Grows node next
  unfolding Grows
  submitted-Grows tx node next chain e same =
      Advances-trans lib node.chain chain next.chain
        (record {
          replay = λ w. submit_transaction-IsReplay net.env now node.chain tx w e;
          work = omega (arith, submit_transaction-work net.env now node.chain tx e);
        })
        (Advances-eq lib chain next.chain same)

  pub after_transaction-Grows :
      (p : Peer) (tx : Transaction) (node : Node) (r : Result Refusal Blockchain)
      → submit_transaction net.env now node.chain tx ≡ r
      → Grows node (after_transaction p tx node r)
  unfolding after_transaction broadcast
  after_transaction-Grows p tx node (ok chain) e = submitted-Grows tx node _ chain e refl
  after_transaction-Grows p tx node (err x) e = Grows-refl node

  pub marked_transaction-Grows :
      (p : Peer) (tx : Transaction) (node marked : Node)
      → marked.chain ≡ node.chain
      → Grows node (try_transaction net now p tx marked)
  unfolding Grows try_transaction
  marked_transaction-Grows p tx node marked e =
      Advances-trans lib node.chain marked.chain _ (Advances-eq lib node.chain marked.chain e)
        (after_transaction-Grows p tx marked _ refl)

  pub handle_tx-Grows :
      (p : Peer) (tx : Transaction) (node : Node) → Grows node (handle_tx net now p tx node)
  unfolding handle_tx
  handle_tx-Grows p tx node =
      let marked = mark_seen now (str_append "tx:" tx.hash) node in
      let e = mark_seen-chain now (str_append "tx:" tx.hash) node in
      if-Grows (not marked.0) node marked.1 _ (Grows-same node marked.1 e) (
        if-Grows (is_some (Dict.get node.chain.mempool.txs tx.hash)) node marked.1 _
          (Grows-same node marked.1 e) (marked_transaction-Grows p tx node marked.1 e))
