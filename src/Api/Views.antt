-- ===== src/Api/Views.antt =====
-- What src/api/server.js shows of a record, and `accountView` of src/core/state.js.
use mineverse.Prelude.{
  ℕ, String, true, false, none, some, List, [], ◌∷◌, ◌==◌, if◌then◌else◌, length,
}
use mineverse.Dict
use mineverse.Dict.{Dict}
use mineverse.Records.{State, Currency, Server, Company, Listing}
use mineverse.Stocks.{outstanding_shares, share_holdings}
use mineverse.Network.{Peer}
use mineverse.Api.{
  Price, no_price, quotient, AccountView, CurrencyView, CompanyView, ServerView, ListingView,
  PeerView,
}

-- `spotPrice`, by the two reserves of a pool
unfoldable pub spot_price : ℕ → ℕ → Price
spot_price reserve_native reserve_out =
    if reserve_out == 0 then no_price else quotient reserve_native reserve_out

unfoldable pub currency_view : Currency → CurrencyView
unfolding spot_price
currency_view cur = record {
  currency = cur;
  price = spot_price cur.reserve_native cur.reserve_token;
}

-- `companyView`
unfoldable pub company_view : Company → CompanyView
unfolding spot_price
company_view company = record {
  company = record company { holders = Dict.empty };
  price = spot_price company.reserve_native company.reserve_shares;
  outstanding_shares = outstanding_shares company;
}

-- `serverSummary`
unfoldable pub server_summary : Server → ServerView
server_summary server = record {
  server = record server { owners = Dict.empty };
  owner_count = length (Dict.keys server.owners);
}

-- `withItems`
unfoldable pub with_items : State → Listing → ListingView
with_items s listing = elim (Dict.get s.inventories listing.inventory_id) [
  | none ↦ record { listing = listing; items = []; claimed = false }
  | some inv ↦ record { listing = listing; items = inv.items; claimed = inv.claimed }
]

-- `accountView`
unfoldable pub account_view : State → String → AccountView
account_view s address = elim (Dict.get s.accounts address) [
  | none ↦ record {
    address = address;
    balance = 0;
    nonce = 0;
    tokens = Dict.empty;
    shares = share_holdings s address;
    uuid = none;
    exists = false;
  }
  | some acct ↦ record {
    address = address;
    balance = acct.balance;
    nonce = acct.nonce;
    tokens = acct.tokens;
    shares = share_holdings s address;
    uuid = acct.uuid;
    exists = true;
  }
]

-- `peerInfo` of src/net/p2p.js
unfoldable pub peer_info : List Peer → List PeerView
peer_info [] = []
peer_info (p ∷ peers) =
    let rest = peer_info peers in
    if p.is_listed
    then (if p.handshaken
        then record { node_id = p.node_id; address = p.address; inbound = p.inbound } ∷ rest
        else rest)
    else rest
