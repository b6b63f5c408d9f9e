-- ===== src/Prelude/Int.antt =====
-- Signed machine integers: the integers, and the two's complement casts between widths.
use Prim.Native.Nat.{ℕ, suc, ◌+◌, ◌-◌, ◌%◌, ◌^◌, ◌≤◌, ◌<◌}
use mathlib.Core.Path.{◌≡◌}
use mathlib.Core.Bool.{Bool}
use native.Mathlib.Omega.{arith}
use sony_buds_tray_control.Prelude.Tests.{ltb, leb, if◌then◌else◌}

-- `negsuc n` is -(n + 1).
pub data ℤ : Type 0 where
  pos : ℕ → ℤ
  negsuc : ℕ → ℤ

abbrev pub pos_part : ℤ → ℕ
pos_part (pos n) = n
pos_part (negsuc n) = 0

abbrev pub neg_part : ℤ → ℕ
neg_part (pos n) = 0
neg_part (negsuc n) = suc n

-- a - b, as an integer.
abbrev pub sub_ℕ : ℕ → ℕ → ℤ
sub_ℕ a b = if leb b a then pos (a - b) else negsuc (b - a - 1)

infixl 65 ◌+ℤ◌
infix 50 ◌≤ℤ◌
abbrev pub ◌+ℤ◌ : ℤ → ℤ → ℤ
a +ℤ b = sub_ℕ (pos_part a + pos_part b) (neg_part a + neg_part b)

abbrev pub ◌≤ℤ◌ : ℤ → ℤ → Type 0
a ≤ℤ b = pos_part a + neg_part b ≤ pos_part b + neg_part a

abbrev pub leb_ℤ : ℤ → ℤ → Bool
leb_ℤ a b = leb (pos_part a + neg_part b) (pos_part b + neg_part a)

-- `v.clamp(lo, hi)`.
unfoldable pub clamp_ℤ : ℤ → ℤ → ℤ → ℤ
clamp_ℤ v lo hi = if leb_ℤ lo v then (if leb_ℤ v hi then v else hi) else lo

-- `v as u8`, of a signed value.
unfoldable pub as_u8 : ℤ → ℕ
as_u8 (pos n) = n % 256
as_u8 (negsuc n) = 255 - n % 256

-- `b as i8`, of a byte.
unfoldable pub as_i8 : ℕ → ℤ
as_i8 b = if ltb (b % 256) 128 then pos (b % 256) else negsuc (255 - b % 256)

-- Wrapping `i8` addition.
unfoldable pub add_i8 : ℤ → ℤ → ℤ
unfolding as_u8 as_i8
add_i8 a b = as_i8 (as_u8 (a +ℤ b))

-- Casts between `u32` and `i32`, and wrapping `i32` addition.
unfoldable pub as_u32 : ℤ → ℕ
as_u32 (pos n) = n % 2 ^ 32
as_u32 (negsuc n) = 2 ^ 32 - 1 - n % 2 ^ 32

unfoldable pub as_i32 : ℕ → ℤ
as_i32 w = if ltb w (2 ^ 31) then pos w else negsuc (2 ^ 32 - 1 - w)

unfoldable pub add_i32 : ℤ → ℤ → ℤ
unfolding as_u32 as_i32
add_i32 a b = as_i32 (as_u32 (a +ℤ b))

abbrev pub IsI8 : ℤ → Type 0
IsI8 v = (negsuc 127 ≤ℤ v) × (v ≤ℤ pos 127)

pub as_i8-as_u8 : (v : ℤ) → IsI8 v → as_i8 (as_u8 v) ≡ v
unfolding as_i8 as_u8
as_i8-as_u8 v h = ground arith

pub as_u8-as_i8 : (b : ℕ) → b < 256 → as_u8 (as_i8 b) ≡ b
unfolding as_i8 as_u8
as_u8-as_i8 b h = ground arith

pub as_i8-IsI8 : (b : ℕ) → IsI8 (as_i8 b)
unfolding as_i8
as_i8-IsI8 b = ground arith

pub clamp_ℤ_bounds : (v lo hi : ℤ) → lo ≤ℤ hi → (lo ≤ℤ clamp_ℤ v lo hi) × (clamp_ℤ v lo hi ≤ℤ hi)
unfolding clamp_ℤ
clamp_ℤ_bounds v lo hi h = ground arith
