-- ===== src/Log/Logger/Digits.antt =====
-- `itoa` of utils/log/log.go prints a number in decimal.
use pikamgr.Base.{
  ℕ, zero, suc, ◌+◌, ◌-◌, ◌*◌, ◌/◌, ◌≤◌, ◌<◌, Bool, true, ◌&&◌, ◌||◌, [], ◌∷◌, ◌++◌, some, ◌≡◌,
  refl, sym, ◌∙◌, ap, arith, length, length-append, ltb, leb, Bool-cases, inl, inr,
}
use mathlib.Core.List.{append_assoc, append-nil}
use pikamgr.Log.Logger.{Text, itoa_at, itoa}

abbrev pub is_digit : ℕ → Bool
is_digit c = leb b'0' c && leb c b'9'

abbrev pub are_digits : Text → Bool
are_digits [] = true
are_digits (c ∷ cs) = is_digit c && are_digits cs

-- The number that decimal digits stand for, behind those that stand for `n`.
abbrev pub read_digits : ℕ → Text → ℕ
read_digits n [] = n
read_digits n (c ∷ cs) = read_digits (10 * n + (c - b'0')) cs

-- 10 ^ k
abbrev pub ten_to : ℕ → ℕ
ten_to zero = 1
ten_to (suc k) = 10 * ten_to k

-- The decimal digits of a number, with as many zeros in front as a width wants, and no more.
pub record IsDecimal (wid i : ℕ) (ds : Text) : Type 0 where
  pub digits : are_digits ds ≡ true
  pub reads : read_digits 0 ds ≡ i
  pub long : wid ≤ length ds
  pub some_ : 1 ≤ length ds
  pub short : (k : ℕ) → i < ten_to (suc k) → wid ≤ suc k → length ds ≤ suc k

are_digits-append : (xs ys : Text) → are_digits (xs ++ ys) ≡ (are_digits xs && are_digits ys)
are_digits-append [] ys = refl
are_digits-append (x ∷ xs) ys = ground (arith, are_digits-append xs ys)

read_digits-append :
    (n : ℕ) (xs ys : Text) → read_digits n (xs ++ ys) ≡ read_digits (read_digits n xs) ys
read_digits-append n [] ys = refl
read_digits-append n (x ∷ xs) ys = read_digits-append (10 * n + (x - b'0')) xs ys

-- One digit.
last-IsDecimal : (wid i : ℕ) → i < 10 → wid ≤ 1 → IsDecimal wid i ((b'0' + i) ∷ [])
last-IsDecimal wid i h k = record {
  digits = ground arith;
  reads = omega arith;
  long = omega (arith, k);
  some_ = omega arith;
  short = λ n p q. omega arith;
}

-- One more digit behind others.
more-IsDecimal :
    (wid i : ℕ) (ds : Text)
    → (leb 10 i || ltb 1 wid) ≡ true
    → IsDecimal (wid - 1) (i / 10) ds
    → IsDecimal wid i (ds ++ (b'0' + (i - (i / 10) * 10)) ∷ [])
more-IsDecimal wid i ds goes d =
    let c : ℕ = b'0' + (i - (i / 10) * 10) in
    record {
      digits = rw (are_digits-append ds (c ∷ [])) (ground (arith, d.digits));
      reads = read_digits-append 0 ds (c ∷ []) ∙ rw d.reads (omega arith);
      long = rw (length-append ds (c ∷ [])) (omega (arith, d.long));
      some_ = rw (length-append ds (c ∷ [])) (omega arith);
      short = λ k p q. rw (length-append ds (c ∷ [])) (shorter k p q);
    }
  where
    shorter : (k : ℕ) → i < ten_to (suc k) → wid ≤ suc k → length ds + 1 ≤ suc k
    shorter zero p q = absurd (ground (arith, goes, p, q))
    shorter (suc k) p q =
        let h : length ds ≤ suc k = d.short k (omega (arith, p)) (omega (arith, q)) in
        omega (arith, h)

-- What stands in the buffer once the loop is over.
record IsPrinted (bp wid i : ℕ) (b : Text) : Type 0 where
  pub ds : Text
  pub result : itoa_at bp i wid b ≡ some (ds ++ b)
  pub decimal : IsDecimal wid i ds

itoa_at-IsPrinted :
    (bp wid i : ℕ) (b : Text) → i < ten_to (suc bp) → wid ≤ suc bp → IsPrinted bp wid i b
unfolding itoa_at
itoa_at-IsPrinted zero wid i b h k = record {
  ds = (b'0' + i) ∷ [];
  result = ground (arith, h, k);
  decimal = last-IsDecimal wid i (omega (arith, h)) k;
}
itoa_at-IsPrinted (suc bp) wid i b h k = elim (Bool-cases (leb 10 i || ltb 1 wid)) [
  | inl goes ↦
      let c : ℕ = b'0' + (i - (i / 10) * 10) in
      let r : IsPrinted bp (wid - 1) (i / 10) (c ∷ b) =
        itoa_at-IsPrinted bp (wid - 1) (i / 10) (c ∷ b) (omega (arith, h)) (omega (arith, k)) in
      record {
        ds = r.ds ++ c ∷ [];
        result = rw goes (r.result ∙ ap (λ x. some x) (sym (append_assoc r.ds (c ∷ []) b)));
        decimal = more-IsDecimal wid i r.ds goes r.decimal;
      }
  | inr stops ↦ record {
    ds = (b'0' + i) ∷ [];
    result = rw stops refl;
    decimal = last-IsDecimal wid i (ground (arith, stops)) (ground (arith, stops));
  }
]

-- A number below 10 ^ 20, which no `int` exceeds, at a width of at most 20 is printed without a panic:
-- what is added to the buffer are decimal digits that read as the number, at least as many as the width
-- wants, at least one, and no more than these and the number need.
pub itoa-IsDecimal :
    (buf : Text) (i wid : ℕ)
    → i < ten_to 20
    → wid ≤ 20
    → (ds : Text) × (itoa buf i wid ≡ some (buf ++ ds)) × IsDecimal wid i ds
unfolding itoa
itoa-IsDecimal buf i wid h k =
    let r : IsPrinted 19 wid i [] = itoa_at-IsPrinted 19 wid i [] h k in
    (r.ds, ground (arith, r.result, append-nil r.ds), r.decimal)
