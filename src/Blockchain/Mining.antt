-- ===== src/Blockchain/Mining.antt =====
-- `mineOnce` of src/core/blockchain.js: the search for a nonce, slice by slice.
use mineverse.Prelude.{
  ℕ, zero, suc, ◌+◌, ◌<◌, ◌≤◌, String, Bool, true, false, not, Option, none, some, ◌≡◌, refl, arith,
  str_eq, Bool-cases, inl, inr, if◌then◌else◌, Result, ok, err,
}
use mineverse.Block.{Block}
use mineverse.Hash.{meets_difficulty}
use mineverse.Env.{Env}
use mineverse.Blockchain.{Blockchain, add_block}
use mineverse.Blockchain.View.{latest}
use mineverse.Blockchain.Rules.{ChainError}

-- The candidate with its hash computed anew.
unfoldable pub hashed : Env → Block → Block
hashed env block = record block { hash = env.header_hash block }

-- Its next nonce.
unfoldable pub next_nonce : Block → Block
next_nonce block = record block { nonce = block.nonce + 1 }

pub data Search : Type 0 where
  found exhausted : Block → Search

-- The loop over one batch.
unfoldable pub search_nonce : Env → ℕ → Block → Search
unfolding hashed next_nonce
search_nonce env zero block = exhausted block
search_nonce env (suc batch) block =
    let tried = hashed env block in
    let rest = search_nonce env batch (next_nonce tried) in
    if meets_difficulty tried.hash tried.difficulty then found tried else rest

pub data Mining : Type 0 where
  -- the promise's results
  aborted tip_changed : Mining
  mined : Block → Blockchain → Mining
  not_added : ChainError → Mining
  -- the next slice goes on with the candidate
  go_on : Block → Mining

abbrev is_tip : Option Block → String → Bool
is_tip none hash = false
is_tip (some block) hash = str_eq block.hash hash

unfoldable pub after_mining : Block → Result ChainError Blockchain → Mining
after_mining block (ok chain) = mined block chain
after_mining block (err e) = not_added e

-- What a search comes to.
unfoldable pub after_search : Env → ℕ → Blockchain → Search → Mining
unfolding after_mining
after_search env now chain (found block) = after_mining block (add_block env now chain block)
after_search env now chain (exhausted block) = go_on block

-- `step`: one slice, on the chain as it is then.
unfoldable pub mine_slice : Env → ℕ → Bool → String → ℕ → Blockchain → Block → Mining
unfolding search_nonce after_search
mine_slice env now is_aborted start_tip batch chain block =
    if is_aborted
    then aborted
    else if not (is_tip (latest chain) start_tip)
    then tip_changed
    else after_search env now chain (search_nonce env batch block)

-- The candidate after so many tries.
unfoldable pub after_tries : Env → ℕ → Block → Block
unfolding hashed next_nonce
after_tries env zero block = block
after_tries env (suc n) block = after_tries env n (next_nonce (hashed env block))

-- The candidate at the n-th try meets its difficulty.
abbrev pub Succeeds : Env → Block → ℕ → Type 0
Succeeds env block n =
    meets_difficulty (env.header_hash (after_tries env n block))
      (after_tries env n block).difficulty
    ≡ true

-- If some try within a batch succeeds, the search of the batch finds a block: it is the candidate
-- of a try no later than that one, with its own hash, and meets its difficulty.
pub search_nonce-finds :
    (env : Env) (batch n : ℕ) (block : Block)
    → n < batch
    → Succeeds env block n
    → (k : ℕ) × (k ≤ n)
      × Succeeds env block k
      × (search_nonce env batch block ≡ found (hashed env (after_tries env k block)))
unfolding search_nonce after_tries
search_nonce-finds env zero n block h s = absurd (omega arith)
search_nonce-finds env (suc batch) zero block h s = (0, omega arith, s, rw s refl)
search_nonce-finds env (suc batch) (suc n) block h s =
    let tried = hashed env block in
    elim (Bool-cases (meets_difficulty tried.hash tried.difficulty)) [
      | inl now ↦ (0, omega arith, now, rw now refl)
      | inr later ↦
          let (k, le, t, e) = search_nonce-finds env batch n (next_nonce tried) (omega arith) s in
          (suc k, omega arith, t, rw later e)
    ]
