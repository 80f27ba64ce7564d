-- ===== src/Api/Priced.antt =====
-- What trades of currencies and shares that go through were priced at, and what they do to who trades
-- (src/core/state.js, src/core/stocks.js).
use mineverse.Prelude.{
  ℕ, ◌+◌, ◌-◌, ◌≤◌, eq_iff, >>=-eq-ok, String, some, List, [], ◌∷◌, ◌≡◌, ap, ◌∙◌, arith, ok,
  require,
}
use mathlib.Core.Path.{subst}
use mineverse.Dict
use mineverse.Config.{company_treasury_bps}
use mineverse.Records.{
  State, Currency, Company, Receipt, swap_buy, swap_sell, share_purchase, share_sale,
  unknown_currency,
}
use mineverse.Ledger.{amount_out, checked_add, fee_of, get_account}
use mineverse.Ledger.Accounts.{
  tokens_in, credit_native-account, debit_native-account, credit_token-account, debit_token-account,
}
use mineverse.Ledger.Supply.{credit_native-MovesCoin}
use mineverse.State.Core.{buy, sell}
use mineverse.Stocks.{buy_shares, sell_shares, require_company, shares_of}
use mineverse.Stocks.Held.{credit_shares-held, debit_shares-held}
use mineverse.Api.{Side, buying, selling}

-- What a trade of a currency does to who trades: the input is taken from one side and the output
-- is put on the other.
abbrev pub IsSettled : Side → (symbol who : String) (amount_in out : ℕ) → State → State → Type 0
IsSettled buying symbol who amount_in out s t =
    ((get_account t who).balance + amount_in ≡ (get_account s who).balance)
    × (tokens_in t who symbol ≡ tokens_in s who symbol + out)
IsSettled selling symbol who amount_in out s t =
    (tokens_in t who symbol + amount_in ≡ tokens_in s who symbol)
    × ((get_account t who).balance ≡ (get_account s who).balance + out)

-- What a trade of shares of a company does to who trades and to the treasury of the company.
abbrev pub IsSettledIn :
    Side
    → (who : String) (amount_in out to_treasury : ℕ) (s t : State) (before after : Company) → Type 0
IsSettledIn buying who amount_in out to_treasury s t before after =
    ((get_account t who).balance + amount_in ≡ (get_account s who).balance)
    × (shares_of after who ≡ shares_of before who + out)
    × (after.treasury ≡ before.treasury + to_treasury)
IsSettledIn selling who amount_in out to_treasury s t before after =
    (shares_of after who + amount_in ≡ shares_of before who)
    × ((get_account t who).balance ≡ (get_account s who).balance + out)
    × (after.treasury ≡ before.treasury)

module _ (symbol : String) (amount_in min_out : ℕ) (hash from : String) (s : State) where
  -- What a trade that goes through was priced at.
  pub buy-priced :
      (cur : Currency) {t : State} {receipts : List Receipt}
      → Dict.get s.currencies symbol ≡ some cur
      → buy symbol amount_in min_out hash from s ≡ ok (t, receipts)
      → (out : ℕ) × (amount_out amount_in cur.reserve_native cur.reserve_token ≡ ok out)
        × (min_out ≤ out)
        × (receipts ≡ swap_buy hash symbol amount_in out ∷ [])
        × IsSettled buying symbol from amount_in out s t
  unfolding buy get_account
  buy-priced cur e h =
      let (found, g1, h1) =
        >>=-eq-ok (require (Dict.get s.currencies symbol) unknown_currency) _ h in
      let same : found ≡ cur = ground arith in
      let (out, g2, h2) = >>=-eq-ok _ _ h1 in
      let (u3, g3, h3) = >>=-eq-ok _ _ h2 in
      let (s1, g4, h4) = >>=-eq-ok _ _ h3 in
      let (r, g5, h5) = >>=-eq-ok _ _ h4 in
      let (s2, g6, h6) = >>=-eq-ok _ _ h5 in
      (
        out,
        subst (λ (c : Currency). amount_out amount_in c.reserve_native c.reserve_token ≡ ok out)
            same g2,
        ground arith,
        ground arith,
        ground (
          arith,
          debit_native-account from amount_in s g4,
          credit_token-account from out _ symbol g6,
        ),
      )

  pub sell-priced :
      (cur : Currency) {t : State} {receipts : List Receipt}
      → Dict.get s.currencies symbol ≡ some cur
      → sell symbol amount_in min_out hash from s ≡ ok (t, receipts)
      → (out : ℕ) × (amount_out amount_in cur.reserve_token cur.reserve_native ≡ ok out)
        × (min_out ≤ out)
        × (receipts ≡ swap_sell hash symbol amount_in out ∷ [])
        × IsSettled selling symbol from amount_in out s t
  unfolding sell get_account
  sell-priced cur e h =
      let (found, g1, h1) =
        >>=-eq-ok (require (Dict.get s.currencies symbol) unknown_currency) _ h in
      let same : found ≡ cur = ground arith in
      let (out, g2, h2) = >>=-eq-ok _ _ h1 in
      let (u3, g3, h3) = >>=-eq-ok _ _ h2 in
      let (s1, g4, h4) = >>=-eq-ok _ _ h3 in
      let (r, g5, h5) = >>=-eq-ok _ _ h4 in
      let (s2, g6, h6) = >>=-eq-ok _ _ h5 in
      (
        out,
        subst (λ (c : Currency). amount_out amount_in c.reserve_token c.reserve_native ≡ ok out)
            same g2,
        ground arith,
        ground arith,
        ground (
          arith,
          debit_token-account from amount_in s symbol g4,
          credit_native-account from out _ g6,
        ),
      )

  pub buy_shares-priced :
      (company : Company) {t : State} {receipts : List Receipt}
      → Dict.get s.companies symbol ≡ some company
      → buy_shares symbol amount_in min_out hash from s ≡ ok (t, receipts)
      → (out : ℕ) × (amount_out
            (amount_in - fee_of amount_in company_treasury_bps)
            company.reserve_native
            company.reserve_shares
          ≡ ok out)
        × (min_out ≤ out)
        × (receipts
            ≡ share_purchase hash symbol amount_in out (fee_of amount_in company_treasury_bps) ∷ [])
        × ((after : Company) × (Dict.get t.companies symbol ≡ some after)
            × IsSettledIn buying from amount_in out
                (fee_of amount_in company_treasury_bps)
                s
                t
                company
                after)
  unfolding buy_shares require_company get_account shares_of checked_add
  buy_shares-priced company e h =
      let (found, g1, h1) = >>=-eq-ok (require_company s symbol) _ h in
      let same : found ≡ company = ground arith in
      let (out, g2, h2) = >>=-eq-ok _ _ h1 in
      let (u3, g3, h3) = >>=-eq-ok _ _ h2 in
      let (s1, g4, h4) = >>=-eq-ok _ _ h3 in
      let (r5, g5, h5) = >>=-eq-ok _ _ h4 in
      let (r6, g6, h6) = >>=-eq-ok _ _ h5 in
      let (r7, g7, h7) = >>=-eq-ok _ _ h6 in
      let (bought, g8, h8) = >>=-eq-ok _ _ h7 in
      let more = credit_shares-held from out _ g8 in
      (
        out,
        subst
            (λ (c : Company).
              amount_out (amount_in - fee_of amount_in company_treasury_bps) c.reserve_native
                c.reserve_shares
              ≡ ok out)
            same g2,
        ground arith,
        ground arith,
        (
          bought,
          ground (arith, Dict.get-put s1.companies symbol symbol bought, eq_iff symbol symbol),
          (
            ground (arith, debit_native-account from amount_in s g4),
            more.0 ∙ ap (λ (c : Company). shares_of c from + out) same,
            ground (arith, more.1, ap (λ (c : Company). c.treasury) same),
          ),
        ),
      )

  pub sell_shares-priced :
      (company : Company) {t : State} {receipts : List Receipt}
      → Dict.get s.companies symbol ≡ some company
      → sell_shares symbol amount_in min_out hash from s ≡ ok (t, receipts)
      → (out : ℕ) × (amount_out amount_in company.reserve_shares company.reserve_native ≡ ok out)
        × (min_out ≤ out)
        × (receipts ≡ share_sale hash symbol amount_in out ∷ [])
        × ((after : Company) × (Dict.get t.companies symbol ≡ some after)
            × IsSettledIn selling from amount_in out 0 s t company after)
  unfolding sell_shares require_company get_account shares_of
  sell_shares-priced company e h =
      let (found, g1, h1) = >>=-eq-ok (require_company s symbol) _ h in
      let same : found ≡ company = ground arith in
      let (out, g2, h2) = >>=-eq-ok _ _ h1 in
      let (u3, g3, h3) = >>=-eq-ok _ _ h2 in
      let (sold, g4, h4) = >>=-eq-ok _ _ h3 in
      let fewer = debit_shares-held from amount_in _ g4 in
      let (r5, g5, h5) = >>=-eq-ok _ _ h4 in
      let (s1, g6, h6) = >>=-eq-ok _ _ h5 in
      let settled : Company = record sold {
        reserve_shares = r5;
        reserve_native = sold.reserve_native - out;
      } in
      (
        out,
        subst (λ (c : Company). amount_out amount_in c.reserve_shares c.reserve_native ≡ ok out)
            same g2,
        ground arith,
        ground arith,
        (
          settled,
          ground (
            arith,
            Dict.get-put s.companies symbol symbol settled,
            eq_iff symbol symbol,
            credit_native-MovesCoin from out _ g6,
          ),
          (
            fewer.0 ∙ ap (λ (c : Company). shares_of c from) same,
            ground (arith, credit_native-account from out _ g6),
            ground (arith, fewer.1, ap (λ (c : Company). c.treasury) same),
          ),
        ),
      )
