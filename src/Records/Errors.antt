-- ===== src/Records/Errors.antt =====
-- What the handlers under src/core throw: a constructor for each message of `fail`, in the order
-- of the files. The values that a message quotes are left out.
pub data StateError : Type 0 where
  -- ledger.js
  overflow insufficient_native insufficient_token unknown_currency : StateError
  pool_has_no_liquidity trade_too_small trade_produces_zero_output : StateError
  trade_exceeds_pool_reserves output_overflow : StateError
  -- bank.js
  interest_overflow contract_already_exists contract_with_yourself unknown_contract : StateError
  contract_not_open contract_not_settleable not_the_contractee not_the_contracter : StateError
  acceptance_window_has_closed : StateError
  -- market.js
  inventory_already_exists uuid_of_another_address unknown_inventory : StateError
  inventory_of_another_address inventory_already_withdrawn inventory_is_listed : StateError
  listing_already_exists unknown_listing listing_not_open not_the_seller : StateError
  your_own_listing listing_has_no_inventory : StateError
  -- land.js
  unknown_server chunk_is_unclaimed chunk_of_another_address too_many_chunks : StateError
  server_already_registered chunk_is_already_owned chunk_not_for_sale : StateError
  you_already_own_this_chunk price_above_max chunk_to_yourself : StateError
  -- stocks.js
  unknown_company holder_limit insufficient_shares company_already_exists : StateError
  symbol_is_a_currency share_count_too_small not_the_ceo insufficient_treasury : StateError
  no_shares_outstanding : StateError
  -- state.js
  transfer_to_self currency_already_exists symbol_is_a_company supply_too_small : StateError
  slippage vote_already_exists unknown_vote vote_has_closed already_voted : StateError
  uuid_already_registered address_already_bound coinbase_outside_block bad_nonce : StateError
  unknown_type bad_block_index bad_coinbase_reward bad_coinbase_fees bad_coinbase_height :
      StateError
  -- A TypeError: a field of `undefined` is read.
  type_error : StateError
  -- Not an error of the source, which goes on with a negative number: see `minus` of Ledger.
  below_zero : StateError
