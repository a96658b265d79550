-- ===== src/Prelude/Int.antt =====
-- Signed integers over the native numbers, and `i32` as its 32-bit pattern.
use Prim.Native.Nat.{ℕ, suc, ◌+◌, ◌-◌, ◌^◌, ◌<◌}
use mathlib.Core.Path.{◌≡◌}
use mathlib.Core.Bool.{Bool}
use native.Mathlib.Omega.{arith}
use dunit_os.Prelude.Tests.{ltb, leb, if◌then◌else◌}

-- `negsuc n` is -(n + 1).
pub data ℤ : Type 0 where
  pos : ℕ → ℤ
  negsuc : ℕ → ℤ

abbrev pub pos_part : ℤ → ℕ
pos_part (pos n) = n
pos_part (negsuc n) = 0

abbrev pub neg_part : ℤ → ℕ
neg_part (pos n) = 0
neg_part (negsuc n) = suc n

abbrev pub sub_ℕ : ℕ → ℕ → ℤ
sub_ℕ a b = if leb b a then pos (a - b) else negsuc (b - a - 1)

infixl 65 ◌+ℤ◌ ◌-ℤ◌
unfoldable pub ◌+ℤ◌ : ℤ → ℤ → ℤ
a +ℤ b = sub_ℕ (pos_part a + pos_part b) (neg_part a + neg_part b)

unfoldable pub ◌-ℤ◌ : ℤ → ℤ → ℤ
a -ℤ b = sub_ℕ (pos_part a + neg_part b) (neg_part a + pos_part b)

abbrev pub ltb_ℤ : ℤ → ℤ → Bool
ltb_ℤ a b = ltb (pos_part a + neg_part b) (pos_part b + neg_part a)

abbrev pub leb_ℤ : ℤ → ℤ → Bool
leb_ℤ a b = leb (pos_part a + neg_part b) (pos_part b + neg_part a)

-- `v as i32` and `v as u32`.
abbrev pub to_i32 : ℕ → ℤ
to_i32 w = if ltb w (2 ^ 31) then pos w else negsuc (2 ^ 32 - 1 - w)

abbrev pub of_i32 : ℤ → ℕ
of_i32 (pos n) = n
of_i32 (negsuc n) = 2 ^ 32 - 1 - n

-- The range of an `i32`.
abbrev pub IsI32 : ℤ → Type 0
IsI32 (pos n) = n < 2 ^ 31
IsI32 (negsuc n) = n < 2 ^ 31

pub to_i32-of_i32 : (x : ℤ) → IsI32 x → to_i32 (of_i32 x) ≡ x
to_i32-of_i32 (pos n) h = ground arith
to_i32-of_i32 (negsuc n) h = ground arith

pub of_i32-to_i32 : (w : ℕ) → w < 2 ^ 32 → of_i32 (to_i32 w) ≡ w
of_i32-to_i32 w h = ground arith

pub of_i32-lt : (x : ℤ) → IsI32 x → of_i32 x < 2 ^ 32
of_i32-lt (pos n) h = omega arith
of_i32-lt (negsuc n) h = omega arith

pub to_i32-IsI32 : (w : ℕ) → w < 2 ^ 32 → IsI32 (to_i32 w)
to_i32-IsI32 w h = ground arith
