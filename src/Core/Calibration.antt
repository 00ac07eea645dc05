-- ===== src/Core/Calibration.antt =====
-- aquilo-core/src/calibration.rs
use aquilo_offline.Base.{ℤ, pos, clamp, F64, whole}

pub record Calibration (R : Type 0) : Type 0 where
  pub full_dist : R
  pub empty_dist : R

module _ {R : Type 0} (F : F64 R) where
  open F use {sub, mul, div, round, as_i64}

  unfoldable pub default_full_dist : R
  default_full_dist = whole F (pos 40)

  unfoldable pub default_empty_dist : R
  default_empty_dist = whole F (pos 178)

  unfoldable pub default_calibration : Calibration R
  unfolding default_full_dist default_empty_dist
  default_calibration = record { full_dist = default_full_dist; empty_dist = default_empty_dist }

  unfoldable pub pct : Calibration R → R → ℤ
  pct cal level_cm =
      let span = sub cal.empty_dist cal.full_dist in
      let p = mul (div (sub cal.empty_dist level_cm) span) (whole F (pos 100)) in
      clamp (as_i64 (round p)) (pos 0) (pos 100)

  unfoldable pub lvl_to_full : Calibration R → R → ℤ
  lvl_to_full cal level_cm = as_i64 (round (sub level_cm cal.full_dist))
