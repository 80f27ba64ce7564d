-- ===== src/Prelude/Texts.antt =====
-- Texts as lists of codes, under their lexicographic order.
use Prim.Native.Nat.{ℕ}
use mathlib.Core.Path.{◌≡◌, refl}
use mathlib.Core.Bool.{Bool, true, false, ◌&&◌, ◌||◌}
use mathlib.Core.List.{List, [], ◌∷◌}
use native.Mathlib.Omega.{arith}
use mineverse.Prelude.Tests.{ltb, ◌==◌}

unfoldable pub same_text : List ℕ → List ℕ → Bool
same_text [] [] = true
same_text [] (d ∷ ds) = false
same_text (c ∷ cs) [] = false
same_text (c ∷ cs) (d ∷ ds) = c == d && same_text cs ds

-- `<=` of JavaScript, on code units
unfoldable pub text_leb : List ℕ → List ℕ → Bool
text_leb [] ds = true
text_leb (c ∷ cs) [] = false
text_leb (c ∷ cs) (d ∷ ds) = ltb c d || (c == d && text_leb cs ds)

pub text_leb_total : (s t : List ℕ) → text_leb s t ≡ false → text_leb t s ≡ true
unfolding text_leb
text_leb_total [] ds h = ground arith
text_leb_total (c ∷ cs) [] h = refl
text_leb_total (c ∷ cs) (d ∷ ds) h = ground (arith, text_leb_total cs ds)

pub text_leb_antisym :
    (s t : List ℕ) → text_leb s t ≡ true → text_leb t s ≡ true → same_text s t ≡ true
unfolding text_leb same_text
text_leb_antisym [] [] h k = refl
text_leb_antisym [] (d ∷ ds) h k = ground arith
text_leb_antisym (c ∷ cs) [] h k = ground arith
text_leb_antisym (c ∷ cs) (d ∷ ds) h k = ground (arith, text_leb_antisym cs ds)

pub text_leb_trans :
    (s t u : List ℕ) → text_leb s t ≡ true → text_leb t u ≡ true → text_leb s u ≡ true
unfolding text_leb
text_leb_trans [] ds es h k = refl
text_leb_trans (c ∷ cs) [] es h k = ground arith
text_leb_trans (c ∷ cs) (d ∷ ds) [] h k = ground arith
text_leb_trans (c ∷ cs) (d ∷ ds) (e ∷ es) h k = ground (arith, text_leb_trans cs ds es)
