-- ===== src/Tests/Histories.antt =====
-- A chain that is mined, loaded, forged and searched.
use mineverse.Prelude.{
  ℕ, ◌^◌, ◌<◌, ◌≤◌, some, [], ◌∷◌, ◌≡◌, ◌⊎◌, refl, arith, ok, ◌==◌, if◌then◌else◌,
}
use mineverse.Block.{Block, block_work}
use mineverse.Hash.{meets_difficulty}
use mineverse.Config.{chain_id}
use mineverse.Blockchain.{Blockchain, Located, first_state, new_blockchain, replace_chain}
use mineverse.Blockchain.Mining.{
  found, hashed, after_tries, search_nonce, Succeeds, search_nonce-finds,
}
use mineverse.Blockchain.Storage.{File, holds, load, load-IsReplay}
use mineverse.Blockchain.History.{IsReplay}
use mineverse.Blockchain.Forgery.{replace_chain-forged}
use mineverse.Blockchain.View.{not_found, found as found_tx, get_transaction}
use mineverse.Blockchain.Index.{Stands}
use mineverse.Blockchain.Lookup.{started, added, get_transaction-answers}
use mineverse.Env.{Env}
use mineverse.Tests.Samples.{
  env, lib, now, genesis, genesis_block, mined_block, payment_hash, low_hash, digest,
}
use mineverse.Tests.Chains.{
  first_chain, second_chain, add_mined_block, candidate, first_chain-IsReplay,
}

-- The third nonce gives a low hash.
abbrev mining_env : Env
mining_env = record env { header_hash = λ block. if block.nonce == 2 then low_hash else digest }

third_try : Succeeds mining_env mined_block 2
unfolding after_tries meets_difficulty
third_try = refl

search_nonce-finds_example :
    (k : ℕ) × (k ≤ 2)
    × Succeeds mining_env mined_block k
    × (search_nonce mining_env 20 mined_block
        ≡ found (hashed mining_env (after_tries mining_env k mined_block)))
search_nonce-finds_example = search_nonce-finds mining_env 20 2 mined_block (omega arith) third_try

abbrev snapshot : File
snapshot = holds (record { chain_id = some chain_id; blocks = some candidate })

load-IsReplay_example :
    IsReplay lib (load env now snapshot first_chain).1
    × (first_chain.work ≤ (load env now snapshot first_chain).1.work)
load-IsReplay_example = load-IsReplay env now first_chain snapshot first_chain-IsReplay

-- Only the hash is that of the genesis block.
abbrev forged : Block
forged = record mined_block { hash = digest; difficulty = 40 }

little_work : first_chain.work < 2 ^ forged.difficulty
unfolding new_blockchain block_work
little_work = omega arith

replace_chain-forged_example :
    (next : Blockchain) × (replace_chain env now first_chain (forged ∷ []) ≡ ok next)
    × (next.blocks ≡ forged ∷ [])
    × (next.work ≡ 2 ^ 40)
    × (next.state ≡ first_state first_chain.genesis first_chain.genesis_block)
unfolding new_blockchain
replace_chain-forged_example = replace_chain-forged env now first_chain forged refl little_work

get_transaction-answers_example :
    (get_transaction second_chain payment_hash ≡ not_found)
    ⊎ ((at : Located) × (s : Stands second_chain.blocks payment_hash at) × (get_transaction
            second_chain payment_hash
          ≡ found_tx (record { tx = some s.tx; block_index = at.0; block_hash = s.block.hash })))
get_transaction-answers_example =
    get_transaction-answers env second_chain payment_hash (
      added now first_chain mined_block second_chain (started genesis genesis_block)
        add_mined_block)
