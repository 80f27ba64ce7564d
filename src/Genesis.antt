-- ===== src/Genesis.antt =====
-- `genesisState` of src/core/genesis.js.
pub mod Allocated
pub mod Load
use mineverse.Prelude.{ℕ, String, List, [], ◌∷◌}
use mineverse.Dict
use mineverse.Dict.{Dict}
use mineverse.Records.{State, empty_state}
use mineverse.Ledger.{get_account, set_account, held}

-- What `loadGenesisConfig` returns, but for the chain id and the message.
pub record Genesis : Type 0 where
  pub timestamp : ℕ
  pub difficulty : ℕ
  pub allocations : Dict ℕ

unfoldable pub allocate : Dict ℕ → List String → State → State
allocate allocations [] s = s
allocate allocations (address ∷ addresses) s =
    allocate allocations addresses (
      set_account s address (record (get_account s address) { balance = held allocations address }))

unfoldable pub genesis_state : Genesis → State
unfolding allocate
genesis_state genesis =
    let keys = Dict.sort_keys (Dict.keys genesis.allocations) in
    record (allocate genesis.allocations keys empty_state) {
      blocks_applied = 1;
      last_timestamp = genesis.timestamp;
    }
