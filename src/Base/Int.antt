-- ===== src/Base/Int.antt =====
-- Signed machine integers (`int`, `long`, file descriptors) over the native numbers.
use Prim.Native.Nat.{ℕ}
use mathlib.Core.Bool.{Bool, true, false}
use mathlib.Core.Path.{◌≡◌, refl}
use native.Mathlib.Omega.{arith}
use quic_proxy.Base.Tests.{ltb, ◌==◌}

-- `negsuc n` is -(n + 1).
pub data ℤ : Type 0 where
  pos : ℕ → ℤ
  negsuc : ℕ → ℤ

-- The -1 by which the program marks a missing descriptor or an unset option.
abbrev pub minus_one : ℤ
minus_one = negsuc 0

abbrev pub is_pos : ℤ → Bool
is_pos (pos n) = ltb 0 n
is_pos (negsuc n) = false

abbrev pub is_neg : ℤ → Bool
is_neg (pos n) = false
is_neg (negsuc n) = true

-- The number that a value stands for where it is not negative.
abbrev pub nat_part : ℤ → ℕ
nat_part (pos n) = n
nat_part (negsuc n) = 0

abbrev pub int_eq : ℤ → ℤ → Bool
int_eq (pos a) (pos b) = a == b
int_eq (pos a) (negsuc b) = false
int_eq (negsuc a) (pos b) = false
int_eq (negsuc a) (negsuc b) = a == b

pub nat_part-not_pos : (i : ℤ) → is_pos i ≡ false → nat_part i ≡ 0
nat_part-not_pos (pos n) h = ground arith
nat_part-not_pos (negsuc n) h = refl

pub int_eq-eq : (a b : ℤ) → int_eq a b ≡ true → a ≡ b
int_eq-eq (pos a) (pos b) h = ground arith
int_eq-eq (pos a) (negsuc b) h = cc
int_eq-eq (negsuc a) (pos b) h = cc
int_eq-eq (negsuc a) (negsuc b) h = ground arith

pub int_eq_self : (i : ℤ) → int_eq i i ≡ true
int_eq_self (pos n) = ground arith
int_eq_self (negsuc n) = ground arith
