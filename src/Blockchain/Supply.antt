-- ===== src/Blockchain/Supply.antt =====
-- The coin of a chain, from its genesis to its tip.
use mineverse.Prelude.{◌+◌, ◌*◌, List, [], ◌∷◌, ◌≡◌, ap, arith, length, ok, >>=-eq-ok}
use mineverse.Config.{block_reward}
use mineverse.Dict
use mineverse.Dict.{Dict}
use mineverse.Records.{State}
use mineverse.Ledger.Supply.{supply}
use mineverse.Keys.{CryptoLib}
use mineverse.Block.{Block}
use mineverse.State.Conservation.{supply-apply_block}
use mineverse.Genesis.{Genesis}
use mineverse.Genesis.Allocated.{supply-genesis_state, genesis_state-interest}
use mineverse.Blockchain.{Blockchain, first_state}
use mineverse.Blockchain.History.{run_blocks, IsReplay}

run_blocks-supply :
    (lib : CryptoLib) (s : State) (blocks : List Block) {t : State}
    → run_blocks lib s blocks ≡ ok t
    → supply t + s.bank.interest_paid
      ≡ supply s + block_reward * length blocks + t.bank.interest_paid
unfolding run_blocks
run_blocks-supply lib s [] h = ground arith
run_blocks-supply lib s (b ∷ blocks) h =
    let (r, e, h1) = >>=-eq-ok _ _ h in
    omega (arith, supply-apply_block lib s b e, run_blocks-supply lib r.0 blocks h1)

first_state-supply :
    (genesis : Genesis) (b : Block)
    → (supply (first_state genesis b) ≡ Dict.total (λ n. n) genesis.allocations)
      × ((first_state genesis b).bank.interest_paid ≡ 0)
unfolding first_state
first_state-supply genesis b = (supply-genesis_state genesis, genesis_state-interest genesis)

-- While the state is the replay of the blocks, the coin in it is the sum of the genesis allocations,
-- a reward for each block after the first, and the interest that the bank has paid.
pub supply-IsReplay :
    (lib : CryptoLib) (chain : Blockchain) (w : IsReplay lib chain)
    → supply chain.state + block_reward
      ≡ Dict.total (λ n. n) chain.genesis.allocations
        + block_reward * length chain.blocks
        + chain.state.bank.interest_paid
supply-IsReplay lib chain w = omega (
  arith,
  ap length w.blocks_eq,
  run_blocks-supply lib _ w.rest w.state_eq,
  first_state-supply chain.genesis chain.genesis_block,
)
