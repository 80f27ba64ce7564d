-- ===== src/Blockchain/Lookup.antt =====
-- `getTransaction` of src/core/blockchain.js on every chain that the class can come to.
use mineverse.Prelude.{ℕ, String, none, some, List, ◌≡◌, ◌⊎◌, inl, inr, arith, ok, Option-cases}
use mineverse.Dict
use mineverse.Transaction.{Transaction}
use mineverse.Block.{Block}
use mineverse.Env.{Env}
use mineverse.Genesis.{Genesis}
use mineverse.Blockchain.{
  Blockchain, Located, new_blockchain, add_block, replace_chain, submit_transaction,
}
use mineverse.Blockchain.View.{not_found, found, get_transaction}
use mineverse.Blockchain.Index.{
  Stands, IsIndexed, new_blockchain-IsIndexed, add_block-IsIndexed, replace_chain-IsIndexed,
  submit_transaction-IsIndexed,
}

-- The chains that the operations of the class lead to, each at a time of its own.
pub data Reachable (env : Env) : Blockchain → Type 0 where
  started : (genesis : Genesis) (block : Block) → Reachable env (new_blockchain genesis block)
  added :
      (now : ℕ) (chain : Blockchain) (block : Block) (next : Blockchain)
      → Reachable env chain
      → add_block env now chain block ≡ ok next
      → Reachable env next
  replaced :
      (now : ℕ) (chain : Blockchain) (candidate : List Block) (next : Blockchain)
      → Reachable env chain
      → replace_chain env now chain candidate ≡ ok next
      → Reachable env next
  submitted :
      (now : ℕ) (chain : Blockchain) (tx : Transaction) (next : Blockchain)
      → Reachable env chain
      → submit_transaction env now chain tx ≡ ok next
      → Reachable env next

get_transaction-none :
    (chain : Blockchain) (hash : String)
    → Dict.get chain.tx_index hash ≡ none
    → get_transaction chain hash ≡ not_found
unfolding get_transaction
get_transaction-none chain hash e = ground arith

get_transaction-Stands :
    (chain : Blockchain) (hash : String) (at : Located)
    → Dict.get chain.tx_index hash ≡ some at
    → (s : Stands chain.blocks hash at)
    → get_transaction chain hash
      ≡ found (record { tx = some s.tx; block_index = at.0; block_hash = s.block.hash })
unfolding get_transaction
get_transaction-Stands chain hash at e s = let k = s.block_eq in let t = s.tx_eq in ground arith

module _ (env : Env) where
  Reachable-IsIndexed : (chain : Blockchain) → Reachable env chain → IsIndexed chain
  Reachable-IsIndexed _ (started genesis block) = new_blockchain-IsIndexed genesis block
  Reachable-IsIndexed _ (added now chain block next r h) =
      add_block-IsIndexed env now chain block (Reachable-IsIndexed chain r) h
  Reachable-IsIndexed _ (replaced now chain candidate next r h) =
      replace_chain-IsIndexed env now chain candidate h
  Reachable-IsIndexed _ (submitted now chain tx next r h) =
      submit_transaction-IsIndexed env now chain tx (Reachable-IsIndexed chain r) h

  -- On a chain that the operations lead to, a look-up does not throw: it finds nothing, or a
  -- transaction that has the hash, and the hash of the block that holds it.
  pub get_transaction-answers :
      (chain : Blockchain) (hash : String)
      → Reachable env chain
      → (get_transaction chain hash ≡ not_found)
        ⊎ ((at : Located) × (s : Stands chain.blocks hash at) × (get_transaction chain hash
              ≡ found (record { tx = some s.tx; block_index = at.0; block_hash = s.block.hash })))
  get_transaction-answers chain hash r = elim (Option-cases (Dict.get chain.tx_index hash)) [
    | inl e ↦ inl (get_transaction-none chain hash e)
    | inr (at, e) ↦
        let s = Reachable-IsIndexed chain r hash at e in
        inr (at, s, get_transaction-Stands chain hash at e s)
  ]
