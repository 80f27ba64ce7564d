-- ===== src/Market/Escrow.antt =====
-- The handlers of the market leave the escrow alone.
use mineverse.Prelude.{ℕ, String, Option, List, ◌≡◌, arith, ok, ◌>>=◌, >>=-eq-ok}
use mineverse.Records.{Item, State, Context, Receipt}
use mineverse.Ledger.Supply.{credit_asset-MovesCoin, debit_asset-MovesCoin}
use mineverse.Market.{
  deposit_inventory, withdraw_inventory, list_item, unlist, cancel_listing, buy_listing,
}
use mineverse.Bank.Escrow.{KeepsEscrow, credit_treasury_asset-Escrow}

module _ (s : State) {t : State} where
  pub deposit_inventory-Escrow :
      (uuid : String) (items : List Item) (server_id : Option String) (hash : String)
      (ctx : Context) (from : String)
      → deposit_inventory uuid items server_id hash ctx from s ≡ ok t
      → KeepsEscrow s t
  unfolding deposit_inventory ◌>>=◌
  deposit_inventory-Escrow uuid items server_id hash ctx from h = ground arith

  pub list_item-Escrow :
      (inventory_id : String) (price : ℕ) (symbol : String) (memo_text : Option String)
      (hash : String) (ctx : Context) (from : String)
      → list_item inventory_id price symbol memo_text hash ctx from s ≡ ok t
      → KeepsEscrow s t
  unfolding list_item ◌>>=◌
  list_item-Escrow inventory_id price symbol memo_text hash ctx from h = ground arith

  pub cancel_listing-Escrow :
      (listing_id from : String) → cancel_listing listing_id from s ≡ ok t → KeepsEscrow s t
  unfolding cancel_listing unlist ◌>>=◌
  cancel_listing-Escrow listing_id from h = ground arith

module _ (s : State) {t : State} {rs : List Receipt} (ctx : Context) (from : String) where
  pub withdraw_inventory-Escrow :
      (inventory_id uuid hash : String)
      → withdraw_inventory inventory_id uuid hash ctx from s ≡ ok (t, rs)
      → KeepsEscrow s t
  unfolding withdraw_inventory ◌>>=◌
  withdraw_inventory-Escrow inventory_id uuid hash h = ground arith

  pub buy_listing-Escrow :
      (listing_id hash : String)
      → buy_listing listing_id hash ctx from s ≡ ok (t, rs)
      → KeepsEscrow s t
  unfolding buy_listing
  buy_listing-Escrow listing_id hash h =
      let (l, g1, h1) = >>=-eq-ok _ _ h in
      let (u2, g2, h2) = >>=-eq-ok _ _ h1 in
      let (u3, g3, h3) = >>=-eq-ok _ _ h2 in
      let (inv, g4, h4) = >>=-eq-ok _ _ h3 in
      let (u5, g5, h5) = >>=-eq-ok _ _ h4 in
      let (s1, e1, h6) = >>=-eq-ok _ _ h5 in
      let (s2, e2, h7) = >>=-eq-ok _ _ h6 in
      let (s3, e3, h8) = >>=-eq-ok _ _ h7 in
      ground (
        arith,
        debit_asset-MovesCoin _ _ _ _ e1,
        credit_asset-MovesCoin _ _ _ _ e2,
        credit_treasury_asset-Escrow _ _ _ e3,
      )
