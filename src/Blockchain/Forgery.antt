-- ===== src/Blockchain/Forgery.antt =====
-- What `replaceChain` of src/core/blockchain.js asks of the first block of a candidate.
use mineverse.Prelude.{
  Result-cases, inl, inr, ℕ, ◌<◌, ◌^◌, false, true, [], ◌∷◌, ◌≡◌, arith, ok, ◌>>=◌, leb, str_eq,
  eq_iff,
}
use mineverse.Block.{Block, block_work, work_from, total_work}
use mineverse.Env.{Env}
use mineverse.Blockchain.{Blockchain, first_state, validate_chain, replay_from, replace_chain}

-- Only its hash is compared: a block alone with the hash of the genesis block, whatever else it
-- says, replaces any chain whose work is less than two to the power of the difficulty that it
-- claims. The chain is then that block, and its state that of the genesis allocations.
pub replace_chain-forged :
    (env : Env) (now : ℕ) (chain : Blockchain) (forged : Block)
    → forged.hash ≡ chain.genesis_block.hash
    → chain.work < 2 ^ forged.difficulty
    → (next : Blockchain) × (replace_chain env now chain (forged ∷ []) ≡ ok next)
      × (next.blocks ≡ forged ∷ [])
      × (next.work ≡ 2 ^ forged.difficulty)
      × (next.state ≡ first_state chain.genesis chain.genesis_block)
unfolding replace_chain validate_chain replay_from total_work work_from block_work ◌>>=◌
replace_chain-forged env now chain forged e h =
    let more : leb (2 ^ forged.difficulty) chain.work ≡ false = ground arith in
    let same : str_eq forged.hash chain.genesis_block.hash ≡ true = (eq_iff _ _).1 e in
    elim (Result-cases (replace_chain env now chain (forged ∷ []))) [
      | inl (next, k) ↦ (next, k, ground arith, ground arith, ground arith)
      | inr (x, k) ↦ ground arith
    ]
