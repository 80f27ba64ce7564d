-- ===== src/Blockchain/Storage.antt =====
-- `save` and `load` of src/core/blockchain.js. The file system is outside the model: a snapshot is
-- the value that is written as JSON, and a file is what reading it gives.
use mineverse.Prelude.{
  ℕ, ◌≤◌, String, Bool, false, not, Option, none, some, List, [], ◌∷◌, ◌≡◌, refl, arith, str_eq,
  if◌then◌else◌, Bool-cases, inl, inr, Result, ok, err,
}
use mineverse.Config.{chain_id}
use mineverse.Block.{Block}
use mineverse.Env.{Env}
use mineverse.Blockchain.{Blockchain, replace_chain}
use mineverse.Blockchain.Rules.{ChainError}
use mineverse.Blockchain.History.{IsReplay, replace_chain-IsReplay}
use mineverse.Blockchain.View.{height}

-- none for a field that is missing or of another type
pub record Snapshot : Type 0 where
  pub chain_id : Option String
  pub blocks : Option (List Block)

pub data File : Type 0 where
  missing unreadable : File
  holds : Snapshot → File

-- What `save` writes to a target; without one it writes nothing.
unfoldable pub save : Option String → Blockchain → Option Snapshot
save none chain = none
save (some target) chain = some (record { chain_id = some chain_id; blocks = some chain.blocks })

pub data Loaded : Type 0 where
  no_snapshot parse_error chain_id_mismatch no_blocks : Loaded
  refused : ChainError → Loaded
  -- the height that is reported
  loaded : ℕ → Loaded

abbrev is_chain_id : Option String → Bool
is_chain_id none = false
is_chain_id (some id) = str_eq id chain_id

unfoldable pub after_replacing : Blockchain → Result ChainError Blockchain → Loaded × Blockchain
unfolding height
after_replacing chain (ok next) = (loaded (height next), next)
after_replacing chain (err e) = (refused e, chain)

unfoldable pub load_blocks : Env → ℕ → Blockchain → Option (List Block) → Loaded × Blockchain
unfolding after_replacing
load_blocks env now chain none = (no_blocks, chain)
load_blocks env now chain (some []) = (no_blocks, chain)
load_blocks env now chain (some (b ∷ [])) = (loaded 0, chain)
load_blocks env now chain (some (b ∷ c ∷ blocks)) =
    after_replacing chain (replace_chain env now chain (b ∷ c ∷ blocks))

-- `load`: its result, and the chain after it.
unfoldable pub load : Env → ℕ → File → Blockchain → Loaded × Blockchain
unfolding load_blocks
load env now missing chain = (no_snapshot, chain)
load env now unreadable chain = (parse_error, chain)
load env now (holds snapshot) chain =
    if not (is_chain_id snapshot.chain_id)
    then (chain_id_mismatch, chain)
    else load_blocks env now chain snapshot.blocks

module _ (env : Env) (now : ℕ) (chain : Blockchain) where
  after_replacing-IsReplay :
      (blocks : List Block) (r : Result ChainError Blockchain)
      → replace_chain env now chain blocks ≡ r
      → IsReplay env.lib chain
      → IsReplay env.lib (after_replacing chain r).1
        × (chain.work ≤ (after_replacing chain r).1.work)
  unfolding after_replacing
  after_replacing-IsReplay blocks (ok next) e w =
      let (v, same, more) = replace_chain-IsReplay env now chain blocks e in (v, omega arith)
  after_replacing-IsReplay blocks (err x) e w = (w, omega arith)

  load_blocks-IsReplay :
      (blocks : Option (List Block))
      → IsReplay env.lib chain
      → IsReplay env.lib (load_blocks env now chain blocks).1
        × (chain.work ≤ (load_blocks env now chain blocks).1.work)
  unfolding load_blocks
  load_blocks-IsReplay none w = (w, omega arith)
  load_blocks-IsReplay (some []) w = (w, omega arith)
  load_blocks-IsReplay (some (b ∷ [])) w = (w, omega arith)
  load_blocks-IsReplay (some (b ∷ c ∷ blocks)) w = after_replacing-IsReplay _ _ refl w

  -- Whatever a file holds, loading it leaves a chain that is the replay of its blocks, if the chain
  -- was one before, and its work does not fall.
  pub load-IsReplay :
      (file : File)
      → IsReplay env.lib chain
      → IsReplay env.lib (load env now file chain).1
        × (chain.work ≤ (load env now file chain).1.work)
  unfolding load
  load-IsReplay missing w = (w, omega arith)
  load-IsReplay unreadable w = (w, omega arith)
  load-IsReplay (holds snapshot) w = elim (Bool-cases (not (is_chain_id snapshot.chain_id))) [
    | inl other ↦ rw other (w, omega arith)
    | inr same ↦ rw same (load_blocks-IsReplay snapshot.blocks w)
  ]
