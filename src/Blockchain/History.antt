-- ===== src/Blockchain/History.antt =====
-- The state and the work of a `Blockchain` against its blocks, whatever was added or replaced.
use mineverse.Prelude.{
  ℕ, ◌+◌, ◌<◌, true, List, [], ◌∷◌, ◌++◌, ◌≡◌, refl, arith, eq_iff, ok, ◌>>=◌, >>=-eq-ok, not,
  fail_if, Bool,
}
use mineverse.Records.{State, Receipt}
use mineverse.Ledger.{Call}
use mineverse.Keys.{CryptoLib}
use mineverse.Transaction.{Transaction}
use mineverse.Block.{Block, block_work, work_from, total_work}
use mineverse.State.{Outcome, apply_block}
use mineverse.Genesis.{Genesis}
use mineverse.Env.{Env}
use mineverse.Blockchain.{
  Blockchain, Replay, first_state, new_blockchain, as_chain_state, replay_block, replay_from,
  validate_chain, add_block, replace_chain, submit_transaction,
}
use mineverse.Blockchain.Rules.{ChainError}

module _ (lib : CryptoLib) where
  -- The state machine run over blocks, one after the other.
  unfoldable pub run_blocks : State → List Block → Call State
  run_blocks s [] = ok s
  run_blocks s (b ∷ bs) = do r ← apply_block lib s b; run_blocks r.0 bs

  -- The state is what the state machine makes of the blocks after the first, from the state of the
  -- genesis allocations; the first has the hash of the genesis block; the work is that of the blocks.
  pub record IsReplay (chain : Blockchain) : Type 0 where
    pub first : Block
    pub rest : List Block
    pub blocks_eq : chain.blocks ≡ first ∷ rest
    pub first_eq : first.hash ≡ chain.genesis_block.hash
    pub state_eq : run_blocks (first_state chain.genesis chain.genesis_block) rest ≡ ok chain.state
    pub work_eq : total_work chain.blocks ≡ chain.work

  run_blocks-snoc :
      (s : State) (bs : List Block) (b : Block) {t u : State} {rs : List Receipt}
      → run_blocks s bs ≡ ok t
      → apply_block lib t b ≡ ok (u, rs)
      → run_blocks s (bs ++ b ∷ []) ≡ ok u
  unfolding run_blocks ◌>>=◌
  run_blocks-snoc s [] b h k = ground arith
  run_blocks-snoc s (c ∷ bs) b h k =
      let (r, e, h1) = >>=-eq-ok (apply_block lib s c) _ h in rw e (run_blocks-snoc r.0 bs b h1 k)

work_from-snoc :
    (sum : ℕ) (bs : List Block) (b : Block)
    → work_from sum (bs ++ b ∷ []) ≡ work_from sum bs + block_work b
unfolding work_from
work_from-snoc sum [] b = refl
work_from-snoc sum (c ∷ bs) b = work_from-snoc (sum + block_work c) bs b

as_chain_state-eq : (c : Call Outcome) {r : Outcome} → as_chain_state c ≡ ok r → c ≡ ok r
as_chain_state-eq c h = ground arith

fail_if-not : (b : Bool) (e : ChainError) {u : Unit {0}} → fail_if (not b) e ≡ ok u → b ≡ true
fail_if-not b e h = ground arith

module _ (env : Env) (now difficulty : ℕ) where
  replay_block-state :
      (blocks : List Block) (i : ℕ) (b : Block) (r : Replay) {r' : Replay}
      → replay_block env now difficulty blocks i b r ≡ ok r'
      → (rs : List Receipt) × (apply_block env.lib r.state b ≡ ok (r'.state, rs))
  unfolding replay_block
  replay_block-state blocks i b r h =
      let (u1, g1, h1) = >>=-eq-ok _ _ h in
      let (u2, g2, h2) = >>=-eq-ok _ _ h1 in
      let (seen, g3, h3) = >>=-eq-ok _ _ h2 in
      let (o, e, h4) = >>=-eq-ok _ _ h3 in (o.1, ground (arith, as_chain_state-eq _ e))

  replay_from-state :
      (blocks : List Block) (i : ℕ) (bs : List Block) (r : Replay) {r' : Replay}
      → replay_from env now difficulty blocks i bs r ≡ ok r'
      → run_blocks env.lib r.state bs ≡ ok r'.state
  unfolding replay_from run_blocks ◌>>=◌
  replay_from-state blocks i [] r h = ground arith
  replay_from-state blocks i (b ∷ bs) r h =
      let (r1, g1, h1) = >>=-eq-ok _ _ h in
      let (rs, e) = replay_block-state blocks i b r g1 in
      rw (e) (replay_from-state blocks (i + 1) bs r1 h1)

module _ (env : Env) (now : ℕ) where
  validate_chain-state :
      (chain : Blockchain) (blocks : List Block) {r : Replay}
      → validate_chain env now chain blocks ≡ ok r
      → (first : Block) × (rest : List Block) × (blocks ≡ first ∷ rest)
        × (first.hash ≡ chain.genesis_block.hash)
        × (run_blocks env.lib (first_state chain.genesis chain.genesis_block) rest ≡ ok r.state)
  unfolding validate_chain
  validate_chain-state chain [] h = cc
  validate_chain-state chain (first ∷ rest) h =
      let (u1, g1, h1) = >>=-eq-ok _ _ h in
      (
        first,
        rest,
        refl,
        (eq_iff _ _).0 (fail_if-not _ _ g1),
        replay_from-state env now chain.genesis.difficulty _ _ rest _ h1,
      )

-- A chain that was just made is the replay of its one block.
pub new_blockchain-IsReplay :
    (lib : CryptoLib) (genesis : Genesis) (b : Block) → IsReplay lib (new_blockchain genesis b)
unfolding new_blockchain run_blocks total_work work_from
new_blockchain-IsReplay lib genesis b = record {
  first = b;
  rest = [];
  blocks_eq = refl;
  first_eq = refl;
  state_eq = refl;
  work_eq = omega arith;
}

-- What a block adds to a chain that takes it.
record Extends (lib : CryptoLib) (chain : Blockchain) (b : Block) (next : Blockchain) : Type 0 where
  receipts : List Receipt
  applied : apply_block lib chain.state b ≡ ok (next.state, receipts)
  blocks_eq : next.blocks ≡ chain.blocks ++ b ∷ []
  work_eq : next.work ≡ chain.work + block_work b
  genesis_eq : next.genesis ≡ chain.genesis
  genesis_block_eq : next.genesis_block ≡ chain.genesis_block

Extends-IsReplay :
    (lib : CryptoLib) (chain : Blockchain) (b : Block) (next : Blockchain)
    → IsReplay lib chain
    → Extends lib chain b next
    → IsReplay lib next
unfolding total_work
Extends-IsReplay lib chain b next w x = record {
  first = w.first;
  rest = w.rest ++ b ∷ [];
  blocks_eq = rw (x.blocks_eq, w.blocks_eq) refl;
  first_eq = rw x.genesis_block_eq w.first_eq;
  state_eq =
      rw (x.genesis_eq, x.genesis_block_eq) (run_blocks-snoc lib _ w.rest b w.state_eq x.applied);
  work_eq = rw (x.blocks_eq, x.work_eq, work_from-snoc 0 chain.blocks b) (omega (arith, w.work_eq));
}

module _ (env : Env) (now : ℕ) where
  add_block-Extends :
      (chain : Blockchain) (b : Block) {next : Blockchain}
      → add_block env now chain b ≡ ok next
      → Extends env.lib chain b next
  unfolding add_block
  add_block-Extends chain b {next} h =
      let (u1, g1, h1) = >>=-eq-ok _ _ h in
      let (u2, g2, h2) = >>=-eq-ok _ _ h1 in
      let (u3, g3, h3) = >>=-eq-ok _ _ h2 in
      let (u4, g4, h4) = >>=-eq-ok _ _ h3 in
      let (o, e, h5) = >>=-eq-ok _ _ h4 in
      let k = as_chain_state-eq _ e in
      record {
        receipts = o.1;
        applied = ground arith;
        blocks_eq = ground arith;
        work_eq = ground arith;
        genesis_eq = ground arith;
        genesis_block_eq = ground arith;
      }

  pub add_block-work :
      (chain : Blockchain) (b : Block) {next : Blockchain}
      → add_block env now chain b ≡ ok next
      → next.work ≡ chain.work + block_work b
  add_block-work chain b h = (add_block-Extends chain b h).work_eq

  -- A chain that takes a block is the replay of its blocks after it if it was before.
  pub add_block-IsReplay :
      (chain : Blockchain) (b : Block) {next : Blockchain}
      → IsReplay env.lib chain
      → add_block env now chain b ≡ ok next
      → IsReplay env.lib next
  add_block-IsReplay chain b w h =
      Extends-IsReplay env.lib chain b _ w (add_block-Extends chain b h)

  -- A chain that is replaced is the replay of the candidate, which has strictly more work.
  pub replace_chain-IsReplay :
      (chain : Blockchain) (candidate : List Block) {next : Blockchain}
      → replace_chain env now chain candidate ≡ ok next
      → IsReplay env.lib next × (next.blocks ≡ candidate) × (chain.work < next.work)
  unfolding replace_chain
  replace_chain-IsReplay chain candidate {next} h =
      let (u1, g1, h1) = >>=-eq-ok _ _ h in
      let (r, g2, h2) = >>=-eq-ok _ _ h1 in
      let (first, rest, e1, e2, e3) = validate_chain-state env now chain candidate g2 in
      (
        record {
          first = first;
          rest = rest;
          blocks_eq = ground arith;
          first_eq = ground arith;
          state_eq = ground arith;
          work_eq = ground arith;
        },
        ground arith,
        ground arith,
      )

  -- A transaction that is submitted leaves the chain as it is.
  pub submit_transaction-IsReplay :
      (chain : Blockchain) (tx : Transaction) {next : Blockchain}
      → IsReplay env.lib chain
      → submit_transaction env now chain tx ≡ ok next
      → IsReplay env.lib next
  unfolding submit_transaction
  submit_transaction-IsReplay chain tx w h =
      let (pool, g1, h1) = >>=-eq-ok _ _ h in
      record {
        first = w.first;
        rest = w.rest;
        blocks_eq = ground (arith, w.blocks_eq);
        first_eq = ground (arith, w.first_eq);
        state_eq = ground (arith, w.state_eq);
        work_eq = ground (arith, w.work_eq);
      }

  pub submit_transaction-work :
      (chain : Blockchain) (tx : Transaction) {next : Blockchain}
      → submit_transaction env now chain tx ≡ ok next
      → next.work ≡ chain.work
  unfolding submit_transaction
  submit_transaction-work chain tx h = let (pool, g1, h1) = >>=-eq-ok _ _ h in ground arith
