-- ===== src/Prelude/Int.antt =====
-- Go's signed integers, and the wrap-around of `int32` and `int64`. A value that the program only
-- compares, or a day number to which it adds one, is unbounded.
use Prim.Native.Nat.{ℕ, suc, ◌+◌, ◌-◌, ◌*◌, ◌/◌, ◌%◌, ◌^◌, ◌≤◌, ◌<◌}
use mathlib.Core.Path.{◌≡◌}
use mathlib.Core.Bool.{Bool}
use mathlib.Core.Logic.{◌↔◌}
use native.Mathlib.Omega.{arith}
use slumlord.Prelude.Tests.{ltb, leb, eqb, if◌then◌else◌}

-- `negsuc n` is -(n + 1).
pub data ℤ : Type 0 where
  pos : ℕ → ℤ
  negsuc : ℕ → ℤ

abbrev pub pos_part : ℤ → ℕ
pos_part (pos n) = n
pos_part (negsuc n) = 0

abbrev pub neg_part : ℤ → ℕ
neg_part (pos n) = 0
neg_part (negsuc n) = suc n

abbrev pub ltb_ℤ : ℤ → ℤ → Bool
ltb_ℤ a b = ltb (pos_part a + neg_part b) (pos_part b + neg_part a)

abbrev pub leb_ℤ : ℤ → ℤ → Bool
leb_ℤ a b = leb (pos_part a + neg_part b) (pos_part b + neg_part a)

abbrev pub eqb_ℤ : ℤ → ℤ → Bool
eqb_ℤ a b = eqb (pos_part a + neg_part b) (pos_part b + neg_part a)

-- a + 1
abbrev pub suc_ℤ : ℤ → ℤ
suc_ℤ (pos n) = pos (n + 1)
suc_ℤ (negsuc n) = if eqb n 0 then pos 0 else negsuc (n - 1)

-- m - n
abbrev pub diff_ℤ : ℕ → ℕ → ℤ
diff_ℤ m n = if ltb m n then negsuc (n - m - 1) else pos (m - n)

abbrev pub add_ℤ : ℤ → ℤ → ℤ
add_ℤ a b = diff_ℤ (pos_part a + pos_part b) (neg_part a + neg_part b)

abbrev pub sub_ℤ : ℤ → ℤ → ℤ
sub_ℤ a b = diff_ℤ (pos_part a + neg_part b) (neg_part a + pos_part b)

pub eqb_ℤ_iff : (a b : ℤ) → (eqb_ℤ a b ≡ Bool.true) ↔ (a ≡ b)
eqb_ℤ_iff a b = ground arith

-- The 32-bit two's complement reading of a residue below 2 ^ 32.
abbrev signed32 : ℕ → ℤ
signed32 m = if ltb m (2 ^ 31) then pos m else negsuc (2 ^ 32 - 1 - m)

-- `int32(v)` for an `int64` v.
unfoldable pub to_int32 : ℤ → ℤ
to_int32 (pos n) = signed32 (n % 2 ^ 32)
to_int32 (negsuc n) = signed32 (2 ^ 32 - 1 - n % 2 ^ 32)

-- A value that an `int32` can hold.
abbrev pub IsInt32 : ℤ → Type 0
IsInt32 v = (pos_part v < 2 ^ 31) × (neg_part v ≤ 2 ^ 31)

pub to_int32-IsInt32 : (v : ℤ) → IsInt32 (to_int32 v)
unfolding to_int32
to_int32-IsInt32 (pos n) = ground arith
to_int32-IsInt32 (negsuc n) = ground arith

pub to_int32-eq_of_IsInt32 : (v : ℤ) → IsInt32 v → to_int32 v ≡ v
unfolding to_int32
to_int32-eq_of_IsInt32 (pos n) h = ground arith
to_int32-eq_of_IsInt32 (negsuc n) h = ground arith

-- Counting wraps as the count does.
pub to_int32-suc : (n : ℕ) → to_int32 (suc_ℤ (to_int32 (pos n))) ≡ to_int32 (pos (suc n))
unfolding to_int32
to_int32-suc n = ground arith

abbrev signed64 : ℕ → ℤ
signed64 m = if ltb m (2 ^ 63) then pos m else negsuc (2 ^ 64 - 1 - m)

-- The wrap-around of `int64`.
unfoldable pub to_int64 : ℤ → ℤ
to_int64 (pos n) = signed64 (n % 2 ^ 64)
to_int64 (negsuc n) = signed64 (2 ^ 64 - 1 - n % 2 ^ 64)

-- `a * 100 / b` for `int64` values with b > 0: the product wraps, the quotient goes towards 0.
unfoldable pub percent : ℤ → ℤ → ℤ
unfolding to_int64
percent a b = elim (to_int64 (diff_ℤ (pos_part a * 100) (neg_part a * 100))) [
  | pos n ↦ pos (n / pos_part b)
  | negsuc n ↦ diff_ℤ 0 ((n + 1) / pos_part b)
]
