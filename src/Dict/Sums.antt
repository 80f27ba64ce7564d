-- ===== src/Dict/Sums.antt =====
-- Sums over the keys of a table, in whatever order they come.
use mineverse.Prelude.{
  ℕ, ◌+◌, ◌≤◌, String, List, [], ◌∷◌, map, none, some, ◌≡◌, refl, arith, str_eq, eq_iff,
  if◌then◌else◌, Bool-cases, inl, inr,
}
use mathlib.Core.Path.{subst}
use mineverse.Dict.Assoc.{Assoc, lookup, IsDistinct, total}
use mineverse.Dict.Keys.{insert_key, sort_keys}

-- How often a key is in a list.
unfoldable pub count : String → List String → ℕ
count k [] = 0
count k (j ∷ l) = (if str_eq j k then 1 else 0) + count k l

unfoldable pub sum_over : (String → ℕ) → List String → ℕ
sum_over f [] = 0
sum_over f (k ∷ l) = f k + sum_over f l

count-insert_key : (k j : String) (l : List String) → count k (insert_key j l) ≡ count k (j ∷ l)
unfolding count insert_key
count-insert_key k j [] = refl
count-insert_key k j (i ∷ l) = ground (arith, count-insert_key k j l)

pub count-sort_keys : (k : String) (l : List String) → count k (sort_keys l) ≡ count k l
unfolding count sort_keys
count-sort_keys k [] = refl
count-sort_keys k (j ∷ l) = omega (arith, count-insert_key k j (sort_keys l), count-sort_keys k l)

sum_over-insert_key :
    (f : String → ℕ) (j : String) (l : List String)
    → sum_over f (insert_key j l) ≡ f j + sum_over f l
unfolding sum_over insert_key
sum_over-insert_key f j [] = refl
sum_over-insert_key f j (i ∷ l) = ground (arith, sum_over-insert_key f j l)

pub sum_over-sort_keys :
    (f : String → ℕ) (l : List String) → sum_over f (sort_keys l) ≡ sum_over f l
unfolding sum_over sort_keys
sum_over-sort_keys f [] = refl
sum_over-sort_keys f (j ∷ l) =
    omega (arith, sum_over-insert_key f j (sort_keys l), sum_over-sort_keys f l)

count-absent :
    {V : Type 0} (k : String) (l : Assoc V)
    → lookup k l ≡ none
    → count k (map (λ (e : String × V). e.0) l) ≡ 0
unfolding count lookup
count-absent k [] h = refl
count-absent k ((j, v) ∷ l) h = ground (arith, count-absent k l)

pub count-keys :
    {V : Type 0} (k : String) (l : Assoc V)
    → IsDistinct l
    → count k (map (λ (e : String × V). e.0) l) ≤ 1
unfolding count
count-keys k [] h = omega arith
count-keys k ((j, v) ∷ l) h = ground (arith, count-absent k l, count-keys k l h.1, eq_iff j k)

-- A function that has the values of a table at its keys sums to the total of the table.
pub sum_over-keys :
    (f : String → ℕ) (l : Assoc ℕ)
    → IsDistinct l
    → ((k : String) (n : ℕ) → lookup k l ≡ some n → f k ≡ n)
    → sum_over f (map (λ (e : String × ℕ). e.0) l) ≡ total (λ n. n) l
unfolding sum_over lookup total
sum_over-keys f [] h g = refl
sum_over-keys f ((j, v) ∷ l) h g =
    let here : f j ≡ v = g j v (ground (arith, eq_iff j j)) in
    let rest = sum_over-keys f l h.1 (λ k n e. g k n (ground (arith, eq_iff j k))) in
    omega (arith, here, rest)

-- The values at a key in two lists of the same length, keys and values, have a property.
abbrev pub Each {ℓ} : {V : Type ℓ} → (V → Type 0) → String → List String → List V → Type 0
Each P k [] vs = Unit
Each P k (j ∷ js) [] = Unit
Each P k (j ∷ js) (v ∷ vs) = (j ≡ k → P v) × Each P k js vs

Each-absent :
    {V : Type 0} (P : V → Type 0) (k : String) (l : Assoc V)
    → lookup k l ≡ none
    → Each P k (map (λ (e : String × V). e.0) l) (map (λ (e : String × V). e.1) l)
unfolding lookup
Each-absent P k [] h = tt
Each-absent P k ((j, v) ∷ l) h =
    (λ same. absurd (ground (arith, eq_iff j k)), Each-absent P k l (ground arith))

pub Each-entries :
    {V : Type 0} (P : V → Type 0) (k : String) (v : V) (l : Assoc V)
    → IsDistinct l
    → lookup k l ≡ some v
    → P v
    → Each P k (map (λ (e : String × V). e.0) l) (map (λ (e : String × V). e.1) l)
unfolding lookup
Each-entries P k v [] d h p = tt
Each-entries P k v ((j, w) ∷ l) d h p = elim (Bool-cases (str_eq j k)) [
  | inl e ↦
      let value : v ≡ w = ground arith in
      let absent : lookup k l ≡ none = subst (λ i. lookup i l ≡ none) ((eq_iff j k).0 e) d.0 in
      (λ same. subst P value p, Each-absent P k l absent)
  | inr e ↦ (λ same. absurd (ground (arith, eq_iff j k)), Each-entries P k v l d.1 (ground arith) p)
]
