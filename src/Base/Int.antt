-- ===== src/Base/Int.antt =====
-- Go's `int` as far as the program uses it: port numbers are compared and printed.
use Prim.Native.Nat.{ℕ}
use mathlib.Core.Path.{◌≡◌}
use mathlib.Core.Logic.{◌↔◌}
use mathlib.Core.Bool.{Bool, true, false}
use native.Mathlib.Omega.{arith}
use pikamgr.Base.Tests.{eqb, ltb}

-- `negsuc n` is -(n + 1).
pub data ℤ : Type 0 where
  pos : ℕ → ℤ
  negsuc : ℕ → ℤ

abbrev pub int_eq : ℤ → ℤ → Bool
int_eq (pos a) (pos b) = eqb a b
int_eq (negsuc a) (negsuc b) = eqb a b
int_eq _ _ = false

pub int_eq_iff : (a b : ℤ) → (int_eq a b ≡ true) ↔ (a ≡ b)
int_eq_iff (pos a) (pos b) = ground arith
int_eq_iff (negsuc a) (negsuc b) = ground arith
int_eq_iff (pos a) (negsuc b) = ground arith
int_eq_iff (negsuc a) (pos b) = ground arith

abbrev pub int_lt : ℤ → ℤ → Bool
int_lt (pos a) (pos b) = ltb a b
int_lt (pos a) (negsuc b) = false
int_lt (negsuc a) (pos b) = true
int_lt (negsuc a) (negsuc b) = ltb b a

-- `a ≤ b`, as the failure of `b < a`
pub not-int_lt_trans : (a b c : ℤ) → int_lt b a ≡ false → int_lt c b ≡ false → int_lt c a ≡ false
not-int_lt_trans (pos a) (pos b) (pos c) h k = ground arith
not-int_lt_trans (pos a) (pos b) (negsuc c) h k = ground arith
not-int_lt_trans (pos a) (negsuc b) c h k = ground arith
not-int_lt_trans (negsuc a) (pos b) (pos c) h k = ground arith
not-int_lt_trans (negsuc a) (pos b) (negsuc c) h k = ground arith
not-int_lt_trans (negsuc a) (negsuc b) (pos c) h k = ground arith
not-int_lt_trans (negsuc a) (negsuc b) (negsuc c) h k = ground arith

pub int_lt-asym : (a b : ℤ) → int_lt a b ≡ true → int_lt b a ≡ false
int_lt-asym (pos a) (pos b) h = ground arith
int_lt-asym (pos a) (negsuc b) h = ground arith
int_lt-asym (negsuc a) (pos b) h = ground arith
int_lt-asym (negsuc a) (negsuc b) h = ground arith

pub int_lt_irrefl : (a : ℤ) → int_lt a a ≡ false
int_lt_irrefl (pos a) = ground arith
int_lt_irrefl (negsuc a) = ground arith
