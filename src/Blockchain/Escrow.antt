-- ===== src/Blockchain/Escrow.antt =====
-- The bank of a chain holds what the contracts of the chain lock up.
use mineverse.Prelude.{String, List, [], ◌∷◌, ◌≡◌, refl, arith, ok, >>=-eq-ok}
use mineverse.Dict
use mineverse.Dict.{Dict}
use mineverse.Records.{State, empty_state, empty_bank}
use mineverse.Ledger.{set_account}
use mineverse.Bank.Escrow.{proposed_cost, active_cost, IsEscrowed}
use mineverse.Keys.{CryptoLib}
use mineverse.Block.{Block}
use mineverse.State.Escrowed.{apply_block-IsEscrowed}
use mineverse.Genesis.{Genesis, allocate, genesis_state}
use mineverse.Blockchain.{Blockchain, first_state}
use mineverse.Blockchain.History.{run_blocks, IsReplay}
use Prim.Native.Nat.{ℕ}

run_blocks-IsEscrowed :
    (lib : CryptoLib) (s : State) (blocks : List Block) {t : State}
    → IsEscrowed s
    → run_blocks lib s blocks ≡ ok t
    → IsEscrowed t
unfolding run_blocks
run_blocks-IsEscrowed lib s [] w h = ground (arith, w.pending, w.vault)
run_blocks-IsEscrowed lib s (b ∷ blocks) w h =
    let (r, e, h1) = >>=-eq-ok _ _ h in
    run_blocks-IsEscrowed lib r.0 blocks (apply_block-IsEscrowed lib s b w e) h1

allocate-contracts :
    (allocations : Dict ℕ) (addresses : List String) (s : State)
    → ((allocate allocations addresses s).contracts ≡ s.contracts)
      × ((allocate allocations addresses s).bank ≡ s.bank)
unfolding allocate set_account
allocate-contracts allocations [] s = (refl, refl)
allocate-contracts allocations (a ∷ addresses) s = allocate-contracts allocations addresses _

first_state-IsEscrowed : (genesis : Genesis) (b : Block) → IsEscrowed (first_state genesis b)
unfolding first_state genesis_state empty_state empty_bank
first_state-IsEscrowed genesis b = ground (
  arith,
  allocate-contracts genesis.allocations (Dict.sort_keys (Dict.keys genesis.allocations))
      empty_state,
  Dict.total-empty proposed_cost,
  Dict.total-empty active_cost,
)

-- While the state is the replay of the blocks, the bank holds the costs of the proposed contracts
-- as pending, and those of the active ones in its vault.
pub blocks-IsEscrowed :
    (lib : CryptoLib) (chain : Blockchain) → IsReplay lib chain → IsEscrowed chain.state
blocks-IsEscrowed lib chain w =
    run_blocks-IsEscrowed lib _ w.rest (first_state-IsEscrowed chain.genesis chain.genesis_block)
      w.state_eq
