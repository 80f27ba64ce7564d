-- ===== src/Dict/Assoc.antt =====
-- Association lists with distinct text keys, in the order of insertion.
use mathlib.Core.List.{List, [], ◌∷◌, map}
use mineverse.Prelude.{
  ℕ, ◌+◌, ◌≤◌, length, String, ◌≡◌, refl, Option, none, some, arith, str_eq, eq_iff, if◌then◌else◌,
}

abbrev pub Assoc {ℓ} : Type ℓ → Type ℓ
Assoc V = List (String × V)

module _ {ℓ} {V : Type ℓ} where
  unfoldable pub lookup : String → Assoc V → Option V
  lookup k [] = none
  lookup k ((j, v) ∷ l) = if str_eq j k then some v else lookup k l

  unfoldable pub insert : String → V → Assoc V → Assoc V
  insert k v [] = (k, v) ∷ []
  insert k v ((j, w) ∷ l) = if str_eq j k then (j, v) ∷ l else (j, w) ∷ insert k v l

  unfoldable pub without : String → Assoc V → Assoc V
  without k [] = []
  without k ((j, w) ∷ l) = if str_eq j k then l else (j, w) ∷ without k l

  abbrev pub IsDistinct : Assoc V → Type ℓ
  IsDistinct [] = Unit
  IsDistinct ((k, v) ∷ l) = (lookup k l ≡ none) × IsDistinct l

  pub lookup-insert :
      (k j : String) (v : V) (l : Assoc V)
      → lookup j (insert k v l) ≡ (if str_eq k j then some v else lookup j l)
  unfolding lookup insert
  lookup-insert k j v [] = refl
  lookup-insert k j v ((i, w) ∷ l) =
      ground (arith, lookup-insert k j v l, eq_iff i k, eq_iff i j, eq_iff k j)

  pub lookup-without :
      (k j : String) (l : Assoc V)
      → IsDistinct l
      → lookup j (without k l) ≡ (if str_eq k j then none else lookup j l)
  unfolding lookup without
  lookup-without k j [] h = ground arith
  lookup-without k j ((i, w) ∷ l) h =
      ground (arith, lookup-without k j l h.1, eq_iff i k, eq_iff i j, eq_iff k j)

  pub insert-IsDistinct :
      (k : String) (v : V) (l : Assoc V) → IsDistinct l → IsDistinct (insert k v l)
  unfolding lookup insert
  insert-IsDistinct k v [] h = (refl, tt)
  insert-IsDistinct k v ((i, w) ∷ l) h =
      ground (arith, insert-IsDistinct k v l h.1, lookup-insert k i v l, eq_iff i k, eq_iff k i)

  pub without-IsDistinct : (k : String) (l : Assoc V) → IsDistinct l → IsDistinct (without k l)
  unfolding lookup without
  without-IsDistinct k [] h = tt
  without-IsDistinct k ((i, w) ∷ l) h =
      ground (arith, without-IsDistinct k l h.1, lookup-without k i l h.1, eq_iff k i)

module _ {ℓ} {V : Type ℓ} (f : V → ℕ) where
  abbrev pub weight : Option V → ℕ
  weight none = 0
  weight (some v) = f v

  unfoldable pub total : Assoc V → ℕ
  total [] = 0
  total ((k, v) ∷ l) = f v + total l

  pub total-insert :
      (k : String) (v : V) (l : Assoc V)
      → total (insert k v l) + weight (lookup k l) ≡ total l + f v
  unfolding total insert lookup
  total-insert k v [] = omega arith
  total-insert k v ((i, w) ∷ l) = ground (arith, total-insert k v l)

  pub total-without :
      (k : String) (l : Assoc V) → total (without k l) + weight (lookup k l) ≡ total l
  unfolding total without lookup
  total-without k [] = omega arith
  total-without k ((i, w) ∷ l) = ground (arith, total-without k l)

pub length-insert {ℓ} :
    {V : Type ℓ} (k : String) (v : V) (l : Assoc V)
    → length (map (λ (e : String × V). e.1) (insert k v l))
      ≤ length (map (λ (e : String × V). e.1) l) + 1
unfolding insert
length-insert k v [] = omega arith
length-insert k v ((i, w) ∷ l) = ground (arith, length-insert k v l)
