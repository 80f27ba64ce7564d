-- ===== src/Api/Lists.antt =====
-- The lists of src/api/server.js: filters, ranges, rankings, and the numbers of a query.
use mineverse.Prelude.{
  ℕ, zero, suc, ◌+◌, ◌-◌, String, Bool, true, false, not, ◌&&◌, ◌||◌, Option, none, some, List, [],
  ◌∷◌, ltb, leb, ◌==◌, str_eq, if◌then◌else◌, take, max, min, length,
}
use mineverse.Prelude.Int.{ℤ, pos, negsuc}
use mineverse.Config.{max_amount}
use mineverse.Records.{Vote, Contract, ContractStatus, Inventory, Listing, ListingStatus, Chunk}
use mineverse.Stocks.{or_null}
use mineverse.Api.{ChunkQuery, ListingQuery}

-- `list.filter(...)`
unfoldable pub filter {ℓ} : {A : Type ℓ} → (A → Bool) → List A → List A
filter p [] = []
filter p (x ∷ xs) = let rest = filter p xs in if p x then x ∷ rest else rest

-- A field that may be null, against a text.
abbrev pub text_is : Option String → String → Bool
text_is none t = false
text_is (some u) t = str_eq u t

-- `if (wanted) list = list.filter(...)`, for a text of the query
unfoldable pub filter_text {ℓ} :
    {A : Type ℓ} → Option String → (A → String → Bool) → List A → List A
unfolding filter
filter_text wanted p xs = elim (or_null wanted) [ none ↦ xs | some t ↦ filter (λ x. p x t) xs ]

abbrev pub filter_flag {ℓ} : {A : Type ℓ} → Bool → (A → Bool) → List A → List A
filter_flag wanted p xs = if wanted then filter p xs else xs

unfoldable pub votes_of_query : Option String → Bool → List Vote → List Vote
unfolding filter filter_text
votes_of_query server_id running list =
    filter_flag running (λ (v : Vote). v.running)
      (filter_text server_id (λ (v : Vote). text_is v.server_id) list)

abbrev contract_status_text : ContractStatus → String
contract_status_text ContractStatus.proposed = "proposed"
contract_status_text ContractStatus.active = "active"
contract_status_text ContractStatus.settled = "settled"
contract_status_text ContractStatus.expired = "expired"
contract_status_text ContractStatus.rejected = "rejected"
contract_status_text ContractStatus.cancelled = "cancelled"

unfoldable pub contracts_of_query : Option String → Option String → List Contract → List Contract
unfolding filter_text
contracts_of_query address status list =
    filter_text status (λ (c : Contract). str_eq (contract_status_text c.status))
      (filter_text address
        (λ (c : Contract) (a : String). str_eq c.contracter a || str_eq c.contractee a) list)

-- `claimed` of the query: "true", "false", or anything else.
unfoldable pub inventories_of_query :
    Option String → Option String → Option Bool → List Inventory → List Inventory
unfolding filter filter_text
inventories_of_query address uuid claimed list =
    let found =
      filter_text uuid (λ (inv : Inventory). str_eq inv.uuid)
        (filter_text address (λ (inv : Inventory). str_eq inv.owner) list) in
    elim claimed [
      | none ↦ found
      | some wanted ↦
          filter (λ (inv : Inventory). if wanted then inv.claimed else not inv.claimed) found
    ]

abbrev listing_status_text : ListingStatus → String
listing_status_text ListingStatus.on_sale = "open"
listing_status_text ListingStatus.sold = "sold"
listing_status_text ListingStatus.cancelled = "cancelled"

unfoldable pub listings_of_query : ListingQuery → List Listing → List Listing
unfolding filter filter_text
listings_of_query q list =
    let of_status =
      filter_flag (not (str_eq q.status "all"))
        (λ (l : Listing). str_eq (listing_status_text l.status) q.status) list in
    let of_seller = filter_text q.seller (λ (l : Listing). str_eq l.seller) of_status in
    let of_buyer = filter_text q.buyer (λ (l : Listing). text_is l.buyer) of_seller in
    let of_symbol = filter_text q.symbol (λ (l : Listing). str_eq l.symbol) of_buyer in
    filter_text q.server_id (λ (l : Listing). text_is l.server_id) of_symbol

-- What an address has bought and not pulled into the world.
unfoldable pub reserved_of : String → List Inventory → List Inventory
unfolding filter
reserved_of address list =
    filter
      (λ (inv : Inventory).
        str_eq inv.owner address && not inv.claimed && is_null (or_null inv.listing_id))
      list
  where
    is_null : Option String → Bool
    is_null none = true
    is_null (some t) = false

-- `Number.isSafeInteger`, for what `parseInt` gives
unfoldable pub safe_integer : Option ℤ → Option ℤ
safe_integer none = none
safe_integer (some (pos n)) = if leb n max_amount then some (pos n) else none
safe_integer (some (negsuc n)) = if ltb n max_amount then some (negsuc n) else none

-- A safe integer above 0.
unfoldable pub positive : Option ℤ → Option ℕ
unfolding safe_integer
positive given = elim (safe_integer given) [
  | none ↦ none
  | some (pos zero) ↦ none
  | some (pos (suc n)) ↦ some (suc n)
  | some (negsuc n) ↦ none
]

abbrev int_leb : ℤ → ℤ → Bool
int_leb (pos m) (pos n) = leb m n
int_leb (pos m) (negsuc n) = false
int_leb (negsuc m) (pos n) = true
int_leb (negsuc m) (negsuc n) = leb n m

-- The chunks in a box; where a side is missing there is none.
unfoldable pub filter_box : Option ℤ → Option ℤ → Option ℤ → Option ℤ → List Chunk → List Chunk
unfolding filter
filter_box (some min_x) (some max_x) (some min_z) (some max_z) list =
    filter
      (λ (c : Chunk).
        int_leb min_x c.x && int_leb c.x max_x && int_leb min_z c.z && int_leb c.z max_z)
      list
filter_box _ _ _ _ list = list

unfoldable pub chunks_of_query : String → ChunkQuery → List Chunk → List Chunk
unfolding filter filter_text filter_box safe_integer
chunks_of_query server_id q list =
    let of_server = filter (λ (c : Chunk). str_eq c.server_id server_id) list in
    let of_dimension = filter_text q.dimension (λ (c : Chunk). str_eq c.dimension) of_server in
    let of_owner = filter_text q.owner (λ (c : Chunk). str_eq c.owner) of_dimension in
    let on_sale = filter_flag q.for_sale (λ (c : Chunk). c.for_sale) of_owner in
    filter_box (safe_integer q.min_x) (safe_integer q.max_x) (safe_integer q.min_z)
      (safe_integer q.max_z) on_sale

-- `parseInt(...) || other`
unfoldable pub int_or : Option ℤ → ℕ → ℤ
int_or none n = pos n
int_or (some (pos zero)) n = pos n
int_or (some (pos (suc m))) n = pos (suc m)
int_or (some (negsuc m)) n = negsuc m

-- `Math.max(low, ...)`
abbrev at_least : ℕ → ℤ → ℕ
at_least low (pos n) = max low n
at_least low (negsuc n) = low

abbrev pub skip {ℓ} : {A : Type ℓ} → ℕ → List A → List A
skip zero xs = xs
skip (suc n) [] = []
skip (suc n) (x ∷ xs) = skip n xs

-- The end of a slice; one below 0 counts from the end of the list.
abbrev slice_end : ℕ → ℤ → ℕ
slice_end size (pos n) = min size n
slice_end size (negsuc n) = size - (n + 1)

-- `slice(from, to)` of GET /chain
unfoldable pub slice_of_query {ℓ} : {A : Type ℓ} → Option ℤ → Option ℤ → List A → List A
unfolding int_or
slice_of_query from to list =
    let start = at_least 0 (int_or from 0) in
    take (slice_end (length list) (int_or to (length list)) - start) (skip start list)

-- The limit of a leaderboard: from 1 to 200, and 25 where none is given.
unfoldable pub limit_of : Option ℤ → ℕ
unfolding int_or
limit_of limit = min 200 (at_least 1 (int_or limit 25))

module _ (locale_leb : String → String → Bool) where
  abbrev pub ranks_before : String × ℕ → String × ℕ → Bool
  ranks_before a b = ltb b.1 a.1 || (b.1 == a.1 && locale_leb a.0 b.0)

  unfoldable pub insert_ranked : String × ℕ → List (String × ℕ) → List (String × ℕ)
  insert_ranked a [] = a ∷ []
  insert_ranked a (b ∷ rest) = if ranks_before a b then a ∷ b ∷ rest else b ∷ insert_ranked a rest

  -- `.sort(...)`: the most first, ties by address
  unfoldable pub rank : List (String × ℕ) → List (String × ℕ)
  unfolding insert_ranked
  rank [] = []
  rank (a ∷ rest) = insert_ranked a (rank rest)
