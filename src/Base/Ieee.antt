-- ===== src/Base/Ieee.antt =====
-- What IEEE 754 and the Rust reference say of the operations of `F64`. A comparison with a NaN is
-- false, so that `x ≼ y` says that neither is one.
use Prim.Native.Nat.{◌≤◌, ◌^◌}
use mathlib.Core.Path.{◌≡◌}
use mathlib.Core.Bool.{true}
use aquilo_offline.Base.Int.{ℤ, pos, pos_part, neg_part, ◌≤ℤ◌, ◌<ℤ◌, ◌+ℤ◌, ≤ℤ_antisym}
use aquilo_offline.Base.Float.{F64}

infix 4 ◌≼◌ ◌≺◌ ◌≈◌
abbrev pub ◌≼◌ : {R : Type 0} ⦃F : F64 R⦄ → R → R → Type 0
◌≼◌ ⦃F⦄ x y = F.le x y ≡ true

abbrev pub ◌≺◌ : {R : Type 0} ⦃F : F64 R⦄ → R → R → Type 0
◌≺◌ ⦃F⦄ x y = F.lt x y ≡ true

-- Numerically equal, as `0.0` and `-0.0` are.
abbrev pub ◌≈◌ : {R : Type 0} ⦃F : F64 R⦄ → R → R → Type 0
x ≈ y = (x ≼ y) × (y ≼ x)

abbrev pub Finite : {R : Type 0} ⦃F : F64 R⦄ → R → Type 0
Finite ⦃F⦄ x = F.is_finite x ≡ true

-- An integer that a double holds exactly, with room for a sum or difference.
abbrev pub IsExact : ℤ → Type 0
IsExact z = (pos_part z ≤ 2 ^ 52) × (neg_part z ≤ 2 ^ 52)

pub record IeeeLaws (R : Type 0) ⦃F : F64 R⦄ : Type 0 where
  pub le_trans : (x y z : R) → x ≼ y → y ≼ z → x ≼ z
  pub of_i64_mono : (a b : ℤ) → a ≤ℤ b → F.of_i64 a ≼ F.of_i64 b
  pub of_i64_pos : (a : ℤ) → pos 0 <ℤ a → F.of_i64 (pos 0) ≺ F.of_i64 a
  pub of_i64-Finite : (a : ℤ) → Finite (F.of_i64 a)
  pub between-Finite : (a x b : R) → Finite a → Finite b → a ≼ x → x ≼ b → Finite x
  -- rounding is monotone, and so is each operation in a finite argument
  pub add_mono : (c x y : R) → Finite c → x ≼ y → F.add c x ≼ F.add c y
  pub sub_mono : (c x y : R) → Finite c → x ≼ y → F.sub x c ≼ F.sub y c
  pub sub_anti : (c x y : R) → Finite c → x ≼ y → F.sub c y ≼ F.sub c x
  pub mul_mono : (c x y : R) → Finite c → F.of_i64 (pos 0) ≺ c → x ≼ y → F.mul x c ≼ F.mul y c
  pub mul_mono_finite :
      (c x y : R)
      → Finite c
      → Finite x
      → Finite y
      → F.of_i64 (pos 0) ≼ c
      → x ≼ y
      → F.mul x c ≼ F.mul y c
  pub div_mono : (d x y : R) → Finite d → F.of_i64 (pos 0) ≺ d → x ≼ y → F.div x d ≼ F.div y d
  -- gradual underflow: a difference of different numbers is not zero
  pub sub_pos : (x y : R) → Finite x → Finite y → x ≺ y → F.of_i64 (pos 0) ≺ F.sub y x
  -- results that are exact
  pub sub_self : (x : R) → Finite x → F.sub x x ≈ F.of_i64 (pos 0)
  pub div_self : (d : R) → Finite d → F.of_i64 (pos 0) ≺ d → F.div d d ≈ F.of_i64 (pos 1)
  pub zero_div :
      (d : R) → Finite d → F.of_i64 (pos 0) ≺ d → F.div (F.of_i64 (pos 0)) d ≈ F.of_i64 (pos 0)
  pub zero_mul : (c : R) → Finite c → F.mul (F.of_i64 (pos 0)) c ≈ F.of_i64 (pos 0)
  pub one_mul : (c : R) → Finite c → F.mul (F.of_i64 (pos 1)) c ≈ c
  pub add_exact :
      (a b : ℤ) → IsExact a → IsExact (a +ℤ b) → F.add (F.of_i64 a) (F.of_i64 b) ≈ F.of_i64 (a +ℤ b)
  -- `f64::max` leaves a NaN aside
  pub max_right : (x y : R) → Finite y → y ≼ F.max x y
  -- the conversions
  pub round_mono : (x y : R) → x ≼ y → F.round x ≼ F.round y
  pub as_i64_mono : (x y : R) → x ≼ y → F.as_i64 x ≤ℤ F.as_i64 y
  pub as_i64_exact : (a : ℤ) → IsExact a → F.as_i64 (F.of_i64 a) ≡ a
  pub round_exact : (a : ℤ) → IsExact a → F.as_i64 (F.round (F.of_i64 a)) ≡ a

module _ {R : Type 0} ⦃F : F64 R⦄ where
  -- `x.round() as i64`
  abbrev pub rounded : R → ℤ
  rounded x = F.as_i64 (F.round x)

module _ {R : Type 0} ⦃F : F64 R⦄ (laws : IeeeLaws R) where
  pub ≈_trans : {x y z : R} → x ≈ y → y ≈ z → x ≈ z
  ≈_trans {x} {y} {z} h k = (laws.le_trans x y z h.0 k.0, laws.le_trans z y x k.1 h.1)

  pub rounded_mono : (x y : R) → x ≼ y → rounded x ≤ℤ rounded y
  rounded_mono x y h = laws.as_i64_mono (F.round x) (F.round y) (laws.round_mono x y h)

  -- The rounded integer of a number that is numerically an exact integer.
  pub rounded_exact : (x : R) (a : ℤ) → IsExact a → x ≈ F.of_i64 a → rounded x ≡ a
  rounded_exact x a h e =
      let exact = laws.round_exact a h in
      ≤ℤ_antisym (rounded x) a (rw exact at (rounded_mono x (F.of_i64 a) e.0))
        (rw exact at (rounded_mono (F.of_i64 a) x e.1))
