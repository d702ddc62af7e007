-- ===== src/Prelude/Text.antt =====
-- Go strings: equality, and the order of `strings.Compare`.
use Prim.Native.Nat.{ℕ}
use Prim.Native.Char.{code}
use Prim.Native.String.{String}
use mathlib.Core.Path.{◌≡◌, refl}
use mathlib.Core.Bool.{Bool, true, false, ◌&&◌, ◌||◌}
use mathlib.Core.List.{List, [], ◌∷◌}
use mathlib.Core.Logic.{◌⊎◌, inl, inr}
use native.Mathlib.Omega.{arith}
use go_again.Prelude.Tests.{ltb, ◌==◌}
pub use text.Mathlib.Text.{◌==◌ as str_eq}
pub use text.Mathlib.TextEquality.{eq_iff}
pub use text.Mathlib.TextPositions.{eq_refl}

-- The order of code points is the byte order of the UTF-8 encodings.
abbrev pub codes : String → List ℕ
codes String.[] = []
codes (String.◌∷◌ c s) = code c ∷ codes s

codes_leb : List ℕ → List ℕ → Bool
codes_leb [] ys = true
codes_leb (x ∷ xs) [] = false
codes_leb (x ∷ xs) (y ∷ ys) = ltb x y || ((x == y) && codes_leb xs ys)

-- strings.Compare(a, b) <= 0
unfoldable pub str_leb : String → String → Bool
unfolding codes_leb
str_leb a b = codes_leb (codes a) (codes b)

codes_leb_total : (xs ys : List ℕ) → (codes_leb xs ys ≡ true) ⊎ (codes_leb ys xs ≡ true)
unfolding codes_leb
codes_leb_total [] ys = inl refl
codes_leb_total (x ∷ xs) [] = inr refl
codes_leb_total (x ∷ xs) (y ∷ ys) = ground (arith, codes_leb_total xs ys)

codes_leb_trans :
    (xs ys zs : List ℕ) → codes_leb xs ys ≡ true → codes_leb ys zs ≡ true → codes_leb xs zs ≡ true
unfolding codes_leb
codes_leb_trans [] ys zs p q = refl
codes_leb_trans (x ∷ xs) [] zs p q = cc
codes_leb_trans (x ∷ xs) (y ∷ ys) [] p q = cc
codes_leb_trans (x ∷ xs) (y ∷ ys) (z ∷ zs) p q = ground (arith, codes_leb_trans xs ys zs)

pub str_leb_total : (a b : String) → (str_leb a b ≡ true) ⊎ (str_leb b a ≡ true)
unfolding str_leb
str_leb_total a b = codes_leb_total (codes a) (codes b)

pub str_leb_trans : (a b c : String) → str_leb a b ≡ true → str_leb b c ≡ true → str_leb a c ≡ true
unfolding str_leb
str_leb_trans a b c = codes_leb_trans (codes a) (codes b) (codes c)
