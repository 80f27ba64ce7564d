-- ===== src/Config.antt =====
-- The consensus constants (src/core/config.js) that the other modules read.
use mineverse.Prelude.{ℕ, String}

abbrev pub chain_id : String
chain_id = "mineverse-2"

-- The native coin's ticker.
abbrev pub native : String
native = "MVC"

-- `Number.MAX_SAFE_INTEGER`
abbrev pub max_amount : ℕ
max_amount = 9007199254740991

abbrev pub block_reward : ℕ
block_reward = 50

abbrev pub min_fee : ℕ
min_fee = 1

abbrev pub min_difficulty : ℕ
min_difficulty = 8

abbrev pub max_difficulty : ℕ
max_difficulty = 32

abbrev pub difficulty_adjust_interval : ℕ
difficulty_adjust_interval = 10

abbrev pub target_block_time_ms : ℕ
target_block_time_ms = 5000

abbrev pub max_txs_per_block : ℕ
max_txs_per_block = 200

abbrev pub max_future_drift_ms : ℕ
max_future_drift_ms = 120000

abbrev pub median_time_blocks : ℕ
median_time_blocks = 11

abbrev pub max_mempool_txs : ℕ
max_mempool_txs = 5000

abbrev pub tx_expiry_ms : ℕ
tx_expiry_ms = 3600000

abbrev pub max_tx_future_drift_ms : ℕ
max_tx_future_drift_ms = 120000

abbrev pub swap_fee_bps : ℕ
swap_fee_bps = 30

abbrev pub creator_supply_bps : ℕ
creator_supply_bps = 500

abbrev pub contract_accept_window_ms : ℕ
contract_accept_window_ms = 86400000

abbrev pub max_contract_duration_ms : ℕ
max_contract_duration_ms = 31536000000

abbrev pub bank_interest_apr_bps : ℕ
bank_interest_apr_bps = 500

abbrev pub ms_per_year : ℕ
ms_per_year = 31536000000

abbrev pub market_fee_bps : ℕ
market_fee_bps = 100

abbrev pub server_registration_price : ℕ
server_registration_price = 5000

abbrev pub chunk_claim_price : ℕ
chunk_claim_price = 500

abbrev pub land_fee_bps : ℕ
land_fee_bps = 250

abbrev pub max_chunks_per_owner : ℕ
max_chunks_per_owner = 10000

abbrev pub founder_share_bps : ℕ
founder_share_bps = 1000

abbrev pub company_treasury_bps : ℕ
company_treasury_bps = 2000

abbrev pub max_company_holders : ℕ
max_company_holders = 10000

abbrev pub min_liquidity : ℕ
min_liquidity = 100

abbrev pub max_token_supply : ℕ
max_token_supply = 1000000000000

abbrev pub min_vote_duration_ms : ℕ
min_vote_duration_ms = 10000

abbrev pub max_vote_duration_ms : ℕ
max_vote_duration_ms = 2592000000

abbrev pub min_contract_duration_ms : ℕ
min_contract_duration_ms = 10000

abbrev pub max_chunk_coord : ℕ
max_chunk_coord = 10000000

abbrev pub min_company_liquidity : ℕ
min_company_liquidity = 1000

abbrev pub min_company_shares : ℕ
min_company_shares = 1000

abbrev pub max_company_shares : ℕ
max_company_shares = 1000000000000

abbrev pub max_inventory_slots : ℕ
max_inventory_slots = 45

abbrev pub max_stack_size : ℕ
max_stack_size = 64

abbrev pub max_block_bytes : ℕ
max_block_bytes = 524288

-- The network's.
abbrev pub max_peers : ℕ
max_peers = 32

abbrev pub peer_msg_window_ms : ℕ
peer_msg_window_ms = 10000

abbrev pub peer_msg_limit : ℕ
peer_msg_limit = 500
