-- ===== src/Base/Int.antt =====
-- Signed integers over the native numbers, and `i64` as an integer that wraps into its 64 bits.
use Prim.Native.Nat.{ℕ, suc, ◌+◌, ◌-◌, ◌%◌, ◌^◌, ◌≤◌, ◌<◌}
use mathlib.Core.Path.{◌≡◌}
use mathlib.Core.Bool.{Bool}
use native.Mathlib.Omega.{arith}
use aquilo_offline.Base.Tests.{ltb, leb, if◌then◌else◌}

-- `negsuc n` is -(n + 1).
pub data ℤ : Type 0 where
  pos : ℕ → ℤ
  negsuc : ℕ → ℤ

abbrev pub pos_part : ℤ → ℕ
pos_part (pos n) = n
pos_part (negsuc n) = 0

abbrev pub neg_part : ℤ → ℕ
neg_part (pos n) = 0
neg_part (negsuc n) = suc n

-- a - b, as an integer.
abbrev pub sub_ℕ : ℕ → ℕ → ℤ
sub_ℕ a b = if leb b a then pos (a - b) else negsuc (b - a - 1)

infixl 65 ◌-ℤ◌ ◌+ℤ◌
infix 50 ◌≤ℤ◌ ◌<ℤ◌
abbrev pub ◌-ℤ◌ : ℤ → ℤ → ℤ
a -ℤ b = sub_ℕ (pos_part a + neg_part b) (neg_part a + pos_part b)

abbrev pub ◌+ℤ◌ : ℤ → ℤ → ℤ
a +ℤ b = sub_ℕ (pos_part a + pos_part b) (neg_part a + neg_part b)

abbrev pub ◌≤ℤ◌ : ℤ → ℤ → Type 0
a ≤ℤ b = pos_part a + neg_part b ≤ pos_part b + neg_part a

abbrev pub ◌<ℤ◌ : ℤ → ℤ → Type 0
a <ℤ b = pos_part a + neg_part b < pos_part b + neg_part a

abbrev pub leb_ℤ : ℤ → ℤ → Bool
leb_ℤ a b = leb (pos_part a + neg_part b) (pos_part b + neg_part a)

abbrev pub max_ℤ : ℤ → ℤ → ℤ
max_ℤ a b = if leb_ℤ a b then b else a

abbrev pub min_ℤ : ℤ → ℤ → ℤ
min_ℤ a b = if leb_ℤ a b then a else b

-- Rust's `Ord::clamp`.
abbrev pub clamp : ℤ → ℤ → ℤ → ℤ
clamp x lo hi = min_ℤ (max_ℤ x lo) hi

-- The `i64` with the bit pattern `w`, for `w` below 2 ^ 64.
abbrev pub of_pattern : ℕ → ℤ
of_pattern w = if ltb w (2 ^ 63) then pos w else negsuc (2 ^ 64 - w - 1)

-- The low 64 bits of an integer as an `i64`.
abbrev pub wrap_i64 : ℤ → ℤ
wrap_i64 (pos n) = of_pattern (n % 2 ^ 64)
wrap_i64 (negsuc n) = of_pattern (2 ^ 64 - 1 - n % 2 ^ 64)

abbrev pub IsI64 : ℤ → Type 0
IsI64 z = (pos_part z < 2 ^ 63) × (neg_part z ≤ 2 ^ 63)

pub wrap_i64-IsI64 : (z : ℤ) → IsI64 (wrap_i64 z)
wrap_i64-IsI64 (pos n) = ground arith
wrap_i64-IsI64 (negsuc n) = ground arith

-- An integer that fits is not changed.
pub wrap_i64_fits : (z : ℤ) → IsI64 z → wrap_i64 z ≡ z
wrap_i64_fits (pos n) h = ground arith
wrap_i64_fits (negsuc n) h = ground arith

pub ≤ℤ_trans : (a b c : ℤ) → a ≤ℤ b → b ≤ℤ c → a ≤ℤ c
≤ℤ_trans a b c h k = omega arith

pub clamp_bounds : (x lo hi : ℤ) → lo ≤ℤ hi → (lo ≤ℤ clamp x lo hi) × (clamp x lo hi ≤ℤ hi)
clamp_bounds x lo hi h = ground arith

pub clamp_mono : (x y lo hi : ℤ) → x ≤ℤ y → clamp x lo hi ≤ℤ clamp y lo hi
clamp_mono x y lo hi h = ground arith

pub ≤ℤ_antisym : (a b : ℤ) → a ≤ℤ b → b ≤ℤ a → a ≡ b
≤ℤ_antisym (pos a) (pos b) h k = ground arith
≤ℤ_antisym (pos a) (negsuc b) h k = absurd (omega arith)
≤ℤ_antisym (negsuc a) (pos b) h k = absurd (omega arith)
≤ℤ_antisym (negsuc a) (negsuc b) h k = ground arith
