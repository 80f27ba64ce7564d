-- ===== src/Market.antt =====
-- src/core/market.js: item custody and the marketplace.
pub mod Escrow
pub mod Nonces
pub mod Supply
use mineverse.Prelude.{
  ℕ, ◌-◌, String, true, false, Bool, Option, none, some, List, [], ◌∷◌, not, str_eq, ok, err, ◌>>=◌,
  ◌>>◌, fail_if, require,
}
use mineverse.Config.{market_fee_bps}
use mineverse.Dict
use mineverse.Records.{
  Item, Inventory, ListingStatus, Listing, State, Context, Receipt, withdrawal, listing_sale,
  inventory_already_exists, uuid_of_another_address, unknown_inventory,
  inventory_of_another_address, inventory_already_withdrawn, inventory_is_listed,
  listing_already_exists, unknown_listing, listing_not_open, not_the_seller, your_own_listing,
  listing_has_no_inventory,
}
use mineverse.Ledger.{Call, require_asset, credit_asset, debit_asset, fee_of}
use mineverse.Bank.{credit_treasury_asset}
use mineverse.Bank.Contracts.{is_some, text_or_empty}

abbrev pub set_inventory : String → Inventory → State → State
set_inventory id inv s = record s { inventories = Dict.put s.inventories id inv }

abbrev pub set_listing : String → Listing → State → State
set_listing id l s = record s { listings = Dict.put s.listings id l }

abbrev is_on_sale : ListingStatus → Bool
is_on_sale ListingStatus.on_sale = true
is_on_sale _ = false

-- `owner && owner !== from`
abbrev pub is_another : Option String → String → Bool
is_another none from = false
is_another (some owner) from = not (str_eq owner from)

unfoldable pub deposit_inventory :
    String → List Item → Option String → String → Context → String → State → Call State
deposit_inventory uuid items server_id hash ctx from s = do
  fail_if (is_some (Dict.get s.inventories hash)) inventory_already_exists
  fail_if (is_another (Dict.get s.uuids uuid) from) uuid_of_another_address
  ok (
      set_inventory hash
        (record {
          id = hash;
          owner = from;
          uuid = uuid;
          server_id = server_id;
          items = items;
          deposited_at = ctx.timestamp;
          listing_id = none;
          acquired_via = none;
          claimed = false;
          claimed_at = none;
          claimed_by_uuid = none;
        })
        s)

unfoldable pub withdraw_inventory :
    String → String → String → Context → String → State → Call (State × List Receipt)
withdraw_inventory inventory_id uuid hash ctx from s = do
  inv ← require (Dict.get s.inventories inventory_id) unknown_inventory
  fail_if (not (str_eq inv.owner from)) inventory_of_another_address
  fail_if inv.claimed inventory_already_withdrawn
  fail_if (is_some inv.listing_id) inventory_is_listed
  ok (
    set_inventory inventory_id
        (record inv {
          claimed = true;
          claimed_at = some ctx.timestamp;
          claimed_by_uuid = some uuid;
        })
        s,
    withdrawal hash inv.items ∷ [],
  )

unfoldable pub list_item :
    String → ℕ → String → Option String → String → Context → String → State → Call State
list_item inventory_id price symbol note hash ctx from s = do
  fail_if (is_some (Dict.get s.listings hash)) listing_already_exists
  inv ← require (Dict.get s.inventories inventory_id) unknown_inventory
  fail_if (not (str_eq inv.owner from)) inventory_of_another_address
  fail_if inv.claimed inventory_already_withdrawn
  fail_if (is_some inv.listing_id) inventory_is_listed
  require_asset s symbol
  ok (
      set_inventory inventory_id (record inv { listing_id = some hash })
        (set_listing hash
          (record {
            id = hash;
            seller = from;
            inventory_id = inventory_id;
            price = price;
            symbol = symbol;
            note = text_or_empty note;
            server_id = inv.server_id;
            status = ListingStatus.on_sale;
            created_at = ctx.timestamp;
            buyer = none;
            sold_at = none;
            fee = 0;
          })
          s))

-- `if (inv) inv.listingId = null`
unfoldable pub unlist : String → Option Inventory → State → State
unlist inventory_id none s = s
unlist inventory_id (some inv) s = set_inventory inventory_id (record inv { listing_id = none }) s

unfoldable pub cancel_listing : String → String → State → Call State
unfolding unlist
cancel_listing listing_id from s = do
  listing ← require (Dict.get s.listings listing_id) unknown_listing
  fail_if (not (is_on_sale listing.status)) listing_not_open
  fail_if (not (str_eq listing.seller from)) not_the_seller
  let s1 = set_listing listing_id (record listing { status = ListingStatus.cancelled }) s
  ok (unlist listing.inventory_id (Dict.get s.inventories listing.inventory_id) s1)

unfoldable pub buy_listing :
    String → String → Context → String → State → Call (State × List Receipt)
buy_listing listing_id hash ctx from s = do
  listing ← require (Dict.get s.listings listing_id) unknown_listing
  fail_if (not (is_on_sale listing.status)) listing_not_open
  fail_if (str_eq listing.seller from) your_own_listing
  inv ← require (Dict.get s.inventories listing.inventory_id) listing_has_no_inventory
  fail_if inv.claimed inventory_already_withdrawn
  let fee = fee_of listing.price market_fee_bps
  s1 ← debit_asset from listing.symbol listing.price s
  s2 ← credit_asset listing.seller listing.symbol (listing.price - fee) s1
  s3 ← credit_treasury_asset listing.symbol fee s2
  let sold = record listing {
    status = ListingStatus.sold;
    buyer = some from;
    sold_at = some ctx.timestamp;
    fee = fee;
  }
  let bought = record inv { owner = from; listing_id = none; acquired_via = some listing.id }
  ok (
    set_inventory listing.inventory_id bought (set_listing listing_id sold s3),
    listing_sale hash listing.id inv.id listing.price listing.symbol fee ∷ [],
  )
