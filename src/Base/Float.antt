-- ===== src/Base/Float.antt =====
-- Rust's `f64`, as an interface: the values are of a type `R`, and `F64 R` holds the operations
-- that the program uses.
use mathlib.Core.Bool.{Bool}
use mathlib.Core.List.{List}
use aquilo_offline.Base.Int.{ℤ, pos}
use aquilo_offline.Base.Text.{Str}

pub record F64 (R : Type 0) : Type 0 where
  -- `n as f64`
  pub of_i64 : ℤ → R
  pub add : R → R → R
  pub sub : R → R → R
  pub mul : R → R → R
  pub div : R → R → R
  pub neg : R → R
  pub max : R → R → R
  -- `Iterator::sum`, which adds from the left
  pub sum : List R → R
  -- `f64::round`: to the nearest integer, ties away from zero
  pub round : R → R
  -- `x as i64`: saturating, and 0 for a NaN
  pub as_i64 : R → ℤ
  pub le : R → R → Bool
  pub lt : R → R → Bool
  pub eq : R → R → Bool
  pub is_finite : R → Bool
  -- `{:?}`
  pub debug : R → Str

module _ {R : Type 0} (F : F64 R) where
  open F use {of_i64, div}

  -- The literals `n.0` and `m / 10`, the double nearest to a decimal with one digit.
  abbrev pub whole : ℤ → R
  whole n = of_i64 n

  abbrev pub tenths : ℤ → R
  tenths m = div (of_i64 m) (of_i64 (pos 10))
