-- ===== src/Base/Lists.antt =====
-- Slices: lengths and positions in native numbers.
use Prim.Native.Nat.{ℕ, zero, suc, ◌+◌, ◌<◌}
use mathlib.Core.Path.{◌≡◌, refl, ap, sym, subst}
use mathlib.Core.Bool.{Bool, true, false}
use mathlib.Core.List.{List, [], ◌∷◌, ◌++◌}
use mathlib.Core.List.{Perm}
use mathlib.Core.List.Perm
use mathlib.Core.Logic.{inl, inr}
use mathlib.Core.Option.{Option, none, some, some-injective}
use pikamgr.Base.Tests.{Option-cases}
use native.Mathlib.Omega.{arith}

module _ {ℓ} {A : Type ℓ} where
  abbrev pub length : List A → ℕ
  length [] = 0
  length (x ∷ xs) = suc (length xs)

  abbrev pub get_elem? : List A → ℕ → Option A
  get_elem? [] i = none
  get_elem? (x ∷ xs) zero = some x
  get_elem? (x ∷ xs) (suc i) = get_elem? xs i

  -- A write out of bounds changes nothing.
  abbrev pub set : List A → ℕ → A → List A
  set [] i v = []
  set (x ∷ xs) zero v = v ∷ xs
  set (x ∷ xs) (suc i) v = x ∷ set xs i v

  abbrev pub is_empty : List A → Bool
  is_empty [] = true
  is_empty (x ∷ xs) = false

module _ {ℓ} {A : Type ℓ} where
  -- `append(xs[:i], xs[i+1:]...)`
  abbrev pub erase_idx : List A → ℕ → List A
  erase_idx [] i = []
  erase_idx (x ∷ xs) zero = xs
  erase_idx (x ∷ xs) (suc i) = x ∷ erase_idx xs i

  abbrev pub swap_with : A → List A → ℕ → Option A → List A
  swap_with x xs i none = x ∷ xs
  swap_with x xs i (some y) = y ∷ set xs i x

  -- `xs[0], xs[i] = xs[i], xs[0]`; where Go panics on an index out of range the list stays as it is.
  abbrev pub swap_first : List A → ℕ → List A
  swap_first [] i = []
  swap_first (x ∷ xs) zero = x ∷ xs
  swap_first (x ∷ xs) (suc i) = swap_with x xs i (get_elem? xs i)

  pub length-append : (xs ys : List A) → length (xs ++ ys) ≡ length xs + length ys
  length-append [] ys = omega arith
  length-append (x ∷ xs) ys = omega (arith, length-append xs ys)

  pub length-set : (xs : List A) (i : ℕ) (v : A) → length (set xs i v) ≡ length xs
  length-set [] i v = refl
  length-set (x ∷ xs) zero v = refl
  length-set (x ∷ xs) (suc i) v = ap suc (length-set xs i v)

  pub get_elem?-lt : (xs : List A) (i : ℕ) {v : A} → get_elem? xs i ≡ some v → i < length xs
  get_elem?-lt [] i h = ground arith
  get_elem?-lt (x ∷ xs) zero h = omega arith
  get_elem?-lt (x ∷ xs) (suc i) h = omega (arith, get_elem?-lt xs i h)

  -- A value put in the place of another, in front of the list.
  set-perm :
      (x : A) (xs : List A) (i : ℕ) (y : A)
      → get_elem? xs i ≡ some y
      → Perm (y ∷ set xs i x) (x ∷ xs)
  set-perm x [] i y h = ground arith
  set-perm x (z ∷ xs) zero y h =
      subst (λ v. Perm (y ∷ x ∷ xs) (x ∷ v ∷ xs)) (some-injective y z (sym h)) (Perm.swap x y xs)
  set-perm x (z ∷ xs) (suc i) y h =
      Perm.trans (Perm.swap z y (set xs i x))
        (Perm.trans (Perm.cons z (set-perm x xs i y h)) (Perm.swap x z xs))

  pub swap_first-perm : (xs : List A) (i : ℕ) → Perm (swap_first xs i) xs
  swap_first-perm [] i = Perm.refl []
  swap_first-perm (x ∷ xs) zero = Perm.refl (x ∷ xs)
  swap_first-perm (x ∷ xs) (suc i) = elim (Option-cases (get_elem? xs i)) [
    | inl e ↦ rw e (Perm.refl (x ∷ xs))
    | inr (y, e) ↦ rw e (set-perm x xs i y e)
  ]

  -- After the swap the chosen element is the first.
  pub get_elem?-swap_first :
      (xs : List A) (i : ℕ) {v : A}
      → get_elem? xs i ≡ some v
      → get_elem? (swap_first xs i) 0 ≡ some v
  get_elem?-swap_first [] i h = h
  get_elem?-swap_first (x ∷ xs) zero h = h
  get_elem?-swap_first (x ∷ xs) (suc i) h = rw h refl

  pub length-swap_first : (xs : List A) (i : ℕ) → length (swap_first xs i) ≡ length xs
  length-swap_first [] i = refl
  length-swap_first (x ∷ xs) zero = refl
  length-swap_first (x ∷ xs) (suc i) = elim (Option-cases (get_elem? xs i)) [
    | inl e ↦ rw e refl
    | inr (y, e) ↦ rw e (omega (arith, length-set xs i x))
  ]
