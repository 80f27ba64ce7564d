-- ===== src/State.antt =====
-- src/core/state.js: the state machine that every block runs through.
pub mod Ballots
pub mod Conservation
pub mod Core
pub mod Escrow
pub mod Escrowed
pub mod Nonces
pub mod Replay
pub mod Spending
pub mod Supply
pub mod Votes
use mineverse.Prelude.{
  ℕ, ◌+◌, ◌-◌, String, true, false, Bool, Option, none, some, List, [], ◌∷◌, ◌++◌, ◌&&◌, not,
  str_eq, ltb, leb, ◌==◌, if◌then◌else◌, ok, err, ◌>>=◌, ◌>>◌, fail_if, require,
}
use mineverse.Prelude.Number.{round_double}
use mineverse.Config.{block_reward}
use mineverse.Dict
use mineverse.Records.{
  Vote, VoteResult, State, Context, Receipt, coinbase_outside_block, bad_nonce, unknown_type,
  type_error, bad_block_index, bad_coinbase_reward, bad_coinbase_fees, bad_coinbase_height,
}
use mineverse.Ledger.{Call, checked_add, get_account, set_account, credit_native, debit_native}
use mineverse.Bank
use mineverse.Bank.Contracts
use mineverse.Market
use mineverse.Land
use mineverse.Stocks
use mineverse.Keys.{CryptoLib, address_from_public_key}
use mineverse.Block.{Block}
use mineverse.Transaction.{Payload, Transaction}
use Core

abbrev pub Outcome : Type 0
Outcome = State × List Receipt

-- A handler that pushes no receipt.
abbrev pub quietly : Call State → Call Outcome
quietly r = r >>= λ s. ok (s, [])

-- `handlers[tx.type](state, tx, ctx, from)`
unfoldable pub handle : Payload → String → Context → String → State → Call Outcome
handle (Payload.coinbase to reward fees) hash ctx from s = err coinbase_outside_block
handle (Payload.transfer to amount symbol) hash ctx from s =
    quietly (Core.transfer to amount symbol from s)
handle (Payload.create_currency symbol name total_supply liquidity) hash ctx from s =
    quietly (Core.create_currency symbol name total_supply liquidity ctx from s)
handle (Payload.buy symbol amount_in min_out) hash ctx from s =
    Core.buy symbol amount_in min_out hash from s
handle (Payload.sell symbol amount_in min_out) hash ctx from s =
    Core.sell symbol amount_in min_out hash from s
handle (Payload.create_vote statement duration_ms server_id) hash ctx from s =
    quietly (Core.create_vote statement duration_ms server_id hash ctx from s)
handle (Payload.cast_vote vote_id choice) hash ctx from s =
    quietly (Core.cast_vote vote_id choice from s)
handle (Payload.create_contract contractee cost terms duration_ms) hash ctx from s =
    quietly (Contracts.create_contract contractee cost terms duration_ms hash ctx from s)
handle (Payload.accept_contract id) hash ctx from s =
    quietly (Contracts.accept_contract id ctx from s)
handle (Payload.reject_contract id) hash ctx from s =
    quietly (Contracts.reject_contract id ctx from s)
handle (Payload.cancel_contract id) hash ctx from s =
    quietly (Contracts.cancel_contract id ctx from s)
handle (Payload.resolve_contract id) hash ctx from s =
    quietly (Contracts.resolve_contract id ctx from s)
handle (Payload.deposit_inventory uuid items server_id) hash ctx from s =
    quietly (Market.deposit_inventory uuid items server_id hash ctx from s)
handle (Payload.withdraw_inventory inventory_id uuid) hash ctx from s =
    Market.withdraw_inventory inventory_id uuid hash ctx from s
handle (Payload.register_uuid uuid) hash ctx from s = quietly (Core.register_uuid uuid from s)
handle (Payload.list_item inventory_id price symbol note) hash ctx from s =
    quietly (Market.list_item inventory_id price symbol note hash ctx from s)
handle (Payload.cancel_listing listing_id) hash ctx from s =
    quietly (Market.cancel_listing listing_id from s)
handle (Payload.buy_listing listing_id) hash ctx from s =
    Market.buy_listing listing_id hash ctx from s
handle (Payload.register_server server_id name description) hash ctx from s =
    quietly (Land.register_server server_id name description ctx from s)
handle (Payload.claim_chunk server_id dimension x z name) hash ctx from s =
    quietly (Land.claim_chunk server_id dimension x z name ctx from s)
handle (Payload.set_chunk_sale server_id dimension x z price) hash ctx from s =
    quietly (Land.set_chunk_sale server_id dimension x z price from s)
handle (Payload.buy_chunk server_id dimension x z max_price) hash ctx from s =
    Land.buy_chunk server_id dimension x z max_price hash ctx from s
handle (Payload.transfer_chunk server_id dimension x z to) hash ctx from s =
    quietly (Land.transfer_chunk server_id dimension x z to ctx from s)
handle (Payload.create_company symbol name description total_shares liquidity server_id) hash ctx
      from s =
    quietly
      (Stocks.create_company symbol name description total_shares liquidity server_id ctx from s)
handle (Payload.buy_shares symbol amount_in min_out) hash ctx from s =
    Stocks.buy_shares symbol amount_in min_out hash from s
handle (Payload.sell_shares symbol amount_in min_out) hash ctx from s =
    Stocks.sell_shares symbol amount_in min_out hash from s
handle (Payload.transfer_shares symbol to amount) hash ctx from s =
    quietly (Stocks.transfer_shares symbol to amount from s)
handle (Payload.company_payout symbol to amount memo) hash ctx from s =
    Stocks.company_payout symbol to amount memo hash from s
handle (Payload.pay_dividend symbol amount) hash ctx from s =
    Stocks.pay_dividend symbol amount hash from s
handle (Payload.other name) hash ctx from s = err unknown_type

abbrev pub is_coinbase : Payload → Bool
is_coinbase (Payload.coinbase to reward fees) = true
is_coinbase _ = false

module _ (lib : CryptoLib) where
  -- `senderOf`; none where the key is refused, which throws.
  unfoldable pub sender_of : Transaction → Option String
  sender_of tx = elim tx.from [ none ↦ none | some key ↦ address_from_public_key lib key ]

  unfoldable pub apply_transaction : Transaction → Context → State → Call Outcome
  apply_transaction tx ctx s = do
    fail_if (is_coinbase tx.payload) coinbase_outside_block
    from ← require (sender_of tx) type_error
    fail_if (not (tx.nonce == (get_account s from).nonce)) bad_nonce
    s1 ← debit_native from tx.fee s
    let acct = get_account s1 from
    handle tx.payload tx.hash ctx from
        (set_account s1 from (record acct { nonce = acct.nonce + 1 }))

  -- The body of a block, with the receipts pushed so far.
  unfoldable pub apply_all : List Transaction → Context → State → List Receipt → Call Outcome
  apply_all [] ctx s receipts = ok (s, receipts)
  apply_all (tx ∷ txs) ctx s receipts = do
    (t, more) ← apply_transaction tx ctx s
    apply_all txs ctx t (receipts ++ more)

-- `v.yes > v.no ? "passed" : v.yes < v.no ? "rejected" : "tied"`
unfoldable pub result_of : Vote → VoteResult
result_of v =
    if ltb v.no_count v.yes_count
    then VoteResult.passed
    else if ltb v.yes_count v.no_count
    then VoteResult.rejected
    else VoteResult.tied

unfoldable pub close_vote : ℕ → Vote → Vote
unfolding result_of
close_vote timestamp v =
    if v.running && leb v.end_time timestamp
    then record v { running = false; result = some (result_of v) }
    else v

unfoldable pub close_votes : ℕ → List String → State → Call State
unfolding close_vote
close_votes timestamp [] s = ok s
close_votes timestamp (id ∷ ids) s = do
  v ← require (Dict.get s.votes id) type_error
  close_votes timestamp ids (Core.set_vote id (close_vote timestamp v) s)

-- `processExpirations`
unfoldable pub process_expirations : ℕ → State → Call State
unfolding close_votes
process_expirations timestamp s = do
  s1 ← close_votes timestamp (Dict.sort_keys (Dict.keys s.votes)) s
  Bank.process_expirations timestamp s1

unfoldable pub fee_total : ℕ → List Transaction → Call ℕ
fee_total sum [] = ok sum
fee_total sum (tx ∷ txs) = do next ← checked_add sum tx.fee; fee_total next txs

-- The checks on the coinbase, and where the reward and the fees go.
unfoldable pub check_coinbase : Payload → ℕ → Call (String × ℕ)
check_coinbase (Payload.coinbase to reward fees) total = do
  fail_if (not (reward == block_reward)) bad_coinbase_reward
  fail_if (not (fees == total)) bad_coinbase_fees
  ok (to, reward + fees)
check_coinbase _ total = err bad_coinbase_reward

module _ (lib : CryptoLib) where
  -- `applyBlock`, on the transactions of the block; none of them is a TypeError.
  unfoldable pub apply_body : Block → List Transaction → State → Call Outcome
  apply_body block [] s = err type_error
  apply_body block (coinbase ∷ body) s = do
    total ← fee_total 0 body
    (to, amount) ← check_coinbase coinbase.payload total
    fail_if (not (coinbase.nonce == block.index)) bad_coinbase_height
    let ctx : Context = record { timestamp = block.timestamp; height = block.index }
    (s1, receipts) ← apply_all lib body ctx s []
    s2 ← credit_native to amount s1
    s3 ← process_expirations block.timestamp s2
    ok (
      record s3 {
        blocks_applied = block.index + 1;
        last_hash = some block.hash;
        last_timestamp = block.timestamp;
      },
      receipts,
    )

  unfoldable pub apply_block : State → Block → Call Outcome
  unfolding apply_body
  apply_block s block = do
    fail_if (not (block.index == s.blocks_applied)) bad_block_index
    apply_body block block.transactions s

-- `total += value` for each value
unfoldable pub add_each {ℓ} : {A : Type ℓ} → (A → ℕ) → ℕ → List A → ℕ
add_each f sum [] = sum
add_each f sum (v ∷ vs) = add_each f (round_double (sum + f v)) vs

-- `circulatingSupply`, in the arithmetic of doubles.
unfoldable pub circulating_supply : State → ℕ
unfolding add_each
circulating_supply s =
    let accounts = add_each (λ a. a.balance) 0 (Dict.values s.accounts) in
    let pools = add_each (λ c. c.reserve_native) accounts (Dict.values s.currencies) in
    let companies =
      add_each (λ c. round_double (c.reserve_native + c.treasury)) pools
        (Dict.values s.companies) in
    let bank = round_double (round_double (s.bank.pending + s.bank.vault) + s.bank.treasury) in
    round_double (companies + bank)
