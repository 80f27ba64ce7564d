-- ===== src/Dict.antt =====
-- JavaScript objects used as tables: `state.accounts`, `acct.tokens`, `company.holders` and the
-- like. Keys are own properties, in the order of insertion. The representation is private.
mod Assoc
mod Keys
mod Sums
unfoldable pub use Keys.{sort_keys}
unfoldable pub use Sums.{count, sum_over}
pub use Sums.{Each}
pub use Sums.{count-sort_keys, sum_over-sort_keys}
use Assoc.{
  IsDistinct, lookup, insert, without, weight, lookup-insert, lookup-without, insert-IsDistinct,
  without-IsDistinct, total-insert, total-without, length-insert,
}
use mineverse.Prelude.{
  ℕ, ◌+◌, ◌≤◌, length, String, ◌≡◌, refl, Option, none, some, List, [], map, arith, str_eq,
  if◌then◌else◌,
}

pub record Dict {ℓ} (V : Type ℓ) : Type ℓ where
  entries : Assoc.Assoc V
  distinct : IsDistinct entries

module _ {ℓ} {V : Type ℓ} where
  -- `{}`
  unfoldable pub empty : Dict V
  empty = record { entries = []; distinct = tt }

  -- `d[k]`
  unfoldable pub get : Dict V → String → Option V
  unfolding lookup
  get d k = lookup k d.entries

  -- `d[k] = v`
  unfoldable pub put : Dict V → String → V → Dict V
  unfolding insert
  put d k v = record {
    entries = insert k v d.entries;
    distinct = insert-IsDistinct k v d.entries d.distinct;
  }

  -- `delete d[k]`
  unfoldable pub remove : Dict V → String → Dict V
  unfolding without
  remove d k = record {
    entries = without k d.entries;
    distinct = without-IsDistinct k d.entries d.distinct;
  }

  -- `Object.keys(d)`
  unfoldable pub keys : Dict V → List String
  keys d = map (λ e. e.0) d.entries

  -- `Object.values(d)`
  unfoldable pub values : Dict V → List V
  values d = map (λ e. e.1) d.entries

  pub get-put :
      (d : Dict V) (k j : String) (v : V)
      → get (put d k v) j ≡ (if str_eq k j then some v else get d j)
  unfolding get put
  get-put d k j v = lookup-insert k j v d.entries

  pub get-remove :
      (d : Dict V) (k j : String) → get (remove d k) j ≡ (if str_eq k j then none else get d j)
  unfolding get remove
  get-remove d k j = lookup-without k j d.entries d.distinct

module _ {ℓ} {V : Type ℓ} where
  -- A value is stored in place of the old one, or is one more.
  pub length-put :
      (d : Dict V) (k : String) (v : V) → length (values (put d k v)) ≤ length (values d) + 1
  unfolding values put
  length-put d k v = length-insert k v d.entries

pub get-empty {ℓ} : {V : Type ℓ} (k : String) → get (empty {V = V}) k ≡ none
unfolding get empty
get-empty k = refl

module _ {ℓ} {V : Type ℓ} (f : V → ℕ) where
  -- The weight of the entry at a key, 0 if there is none.
  abbrev pub weight_at : Dict V → String → ℕ
  weight_at d k = weight f (get d k)

  -- The weights of all entries together.
  pub total : Dict V → ℕ
  total d = Assoc.total f d.entries

  pub total-put :
      (d : Dict V) (k : String) (v : V) → total (put d k v) + weight_at d k ≡ total d + f v
  unfolding total put get
  total-put d k v = total-insert f k v d.entries

  pub total-remove : (d : Dict V) (k : String) → total (remove d k) + weight_at d k ≡ total d
  unfolding total remove get
  total-remove d k = total-without f k d.entries

pub total-empty {ℓ} : {V : Type ℓ} (f : V → ℕ) → total f empty ≡ 0
unfolding total empty Assoc.total
total-empty f = refl

pub count-keys : {V : Type 0} (d : Dict V) (k : String) → count k (keys d) ≤ 1
unfolding keys
count-keys d k = Sums.count-keys k d.entries d.distinct

pub sum_over-keys :
    (f : String → ℕ) (d : Dict ℕ)
    → ((k : String) (n : ℕ) → get d k ≡ some n → f k ≡ n)
    → sum_over f (keys d) ≡ total (λ n. n) d
unfolding keys get total
sum_over-keys f d = Sums.sum_over-keys f d.entries d.distinct

-- A property of the value at a key holds at each place of the key.
pub Each-keys :
    {V : Type 0} (P : V → Type 0) (d : Dict V) (k : String) (v : V)
    → get d k ≡ some v
    → P v
    → Each P k (keys d) (values d)
unfolding keys values get
Each-keys P d k v = Sums.Each-entries P k v d.entries d.distinct

pub ruleset dict_laws = (get-empty, get-put, get-remove)
