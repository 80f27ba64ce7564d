-- ===== src/Tests.antt =====
-- The theorems at concrete inputs: a chain with two accounts, and blocks for it.
mod Samples
mod Chains
mod Histories
mod Ledgers
mod Networks
mod Pools
mod Serials
mod Services
mod Wallets
