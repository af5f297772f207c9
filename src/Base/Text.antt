-- ===== src/Base/Text.antt =====
-- Go's strings: their characters as numbers, and the order of `<` on them.
use Prim.Native.Nat.{ℕ}
use Prim.Native.Char.{code}
use Prim.Native.String.{String}
use mathlib.Core.Path.{◌≡◌}
use native.Mathlib.Omega.{arith}
use mathlib.Core.Bool.{Bool, true, false}
use mathlib.Core.List.{List, [], ◌∷◌}
use pikamgr.Base.Tests.{ltb, eqb, if◌then◌else◌}

-- The code points of a text. `String` has its own `[]` and `∷`.
abbrev pub codes : String → List ℕ
codes String.[] = []
codes (String.◌∷◌ c s) = code c ∷ codes s

abbrev pub codes_lt : List ℕ → List ℕ → Bool
codes_lt [] [] = false
codes_lt [] (y ∷ ys) = true
codes_lt (x ∷ xs) [] = false
codes_lt (x ∷ xs) (y ∷ ys) = if ltb x y then true else if eqb x y then codes_lt xs ys else false

-- `s < t`. Go compares the bytes of UTF-8, whose order is that of the code points.
unfoldable pub str_lt : String → String → Bool
str_lt s t = codes_lt (codes s) (codes t)

codes_lt-asym : (xs ys : List ℕ) → codes_lt xs ys ≡ true → codes_lt ys xs ≡ false
codes_lt-asym [] ys h = ground arith
codes_lt-asym (x ∷ xs) [] h = cc h
codes_lt-asym (x ∷ xs) (y ∷ ys) h = ground (arith, codes_lt-asym xs ys)

pub str_lt-asym : (s t : String) → str_lt s t ≡ true → str_lt t s ≡ false
unfolding str_lt
str_lt-asym s t h = codes_lt-asym (codes s) (codes t) h
