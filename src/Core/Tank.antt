-- ===== src/Core/Tank.antt =====
-- Fullness and the distance to full, under the laws of IEEE 754.
use aquilo_offline.Base.{pos, ◌≤ℤ◌, F64, ◌≡◌, refl, arith, clamp_bounds, clamp_mono}
use aquilo_offline.Base.Ieee.{
  ◌≼◌, ◌≺◌, Finite, IeeeLaws, rounded, rounded_mono, rounded_exact, ≈_trans, ◌≈◌,
}
use aquilo_offline.Core.Calibration.{Calibration, pct, lvl_to_full}

-- A calibration that makes sense: finite distances, full nearer than empty.
pub record IsTank {R : Type 0} ⦃F : F64 R⦄ (cal : Calibration R) : Type 0 where
  pub full : Finite cal.full_dist
  pub empty : Finite cal.empty_dist
  pub span : Finite (F.sub cal.empty_dist cal.full_dist)
  pub nearer : cal.full_dist ≺ cal.empty_dist

module _ {R : Type 0} ⦃F : F64 R⦄ (laws : IeeeLaws R) (cal : Calibration R)
    (tank : IsTank cal) where
  open laws use {
    of_i64_pos, of_i64-Finite, sub_mono, sub_anti, sub_self, sub_pos, div_mono, div_self, zero_div,
    mul_mono, zero_mul, one_mul,
  }

  -- The share of the span that is filled, in percent, before it is rounded.
  filled : R → R
  filled x =
      F.mul (F.div (F.sub cal.empty_dist x) (F.sub cal.empty_dist cal.full_dist))
        (F.of_i64 (pos 100))

  span_pos : F.of_i64 (pos 0) ≺ F.sub cal.empty_dist cal.full_dist
  span_pos = sub_pos cal.full_dist cal.empty_dist tank.full tank.empty tank.nearer

  -- Percentages of what was divided keep the order, and what is numerically equal.
  hundred_mono : (x y : R) → x ≼ y → F.mul x (F.of_i64 (pos 100)) ≼ F.mul y (F.of_i64 (pos 100))
  hundred_mono x y h =
      mul_mono (F.of_i64 (pos 100)) x y (of_i64-Finite (pos 100))
        (of_i64_pos (pos 100) (omega arith)) h

  hundred_cong : (x y : R) → x ≈ y → F.mul x (F.of_i64 (pos 100)) ≈ F.mul y (F.of_i64 (pos 100))
  hundred_cong x y h = (hundred_mono x y h.0, hundred_mono y x h.1)

  filled_anti : (x y : R) → x ≼ y → filled y ≼ filled x
  unfolding filled
  filled_anti x y h = hundred_mono _ _ (
      div_mono (F.sub cal.empty_dist cal.full_dist) _ _ tank.span span_pos
        (sub_anti cal.empty_dist x y tank.empty h))

  filled-full : filled cal.full_dist ≈ F.of_i64 (pos 100)
  unfolding filled
  filled-full =
      ≈_trans laws (hundred_cong _ _ (div_self _ tank.span span_pos)) (one_mul _ (of_i64-Finite _))

  filled-empty : filled cal.empty_dist ≈ F.of_i64 (pos 0)
  unfolding filled
  filled-empty =
      let span = F.sub cal.empty_dist cal.full_dist in
      let left : F.sub cal.empty_dist cal.empty_dist ≈ F.of_i64 (pos 0) =
        sub_self cal.empty_dist tank.empty in
      let divided : F.div (F.sub cal.empty_dist cal.empty_dist) span
          ≈ F.div (F.of_i64 (pos 0)) span =
        (
          div_mono span _ _ tank.span span_pos left.0,
          div_mono span _ _ tank.span span_pos left.1,
        ) in
      ≈_trans laws (hundred_cong _ _ (≈_trans laws divided (zero_div span tank.span span_pos)))
        (zero_mul _ (of_i64-Finite _))

  -- In a tank whose full distance is nearer than its empty one: a larger distance to the surface never
  -- has a larger percentage, every percentage is between 0 and 100, the full distance has 100 and the
  -- empty one 0; and a larger distance never has less to go to full, the full distance nothing.
  pub tank_lem :
      (x y : R)
      → x ≼ y
      → (pct F cal y ≤ℤ pct F cal x)
        × (pos 0 ≤ℤ pct F cal y)
        × (pct F cal x ≤ℤ pos 100)
        × (pct F cal cal.full_dist ≡ pos 100)
        × (pct F cal cal.empty_dist ≡ pos 0)
        × (lvl_to_full F cal x ≤ℤ lvl_to_full F cal y)
        × (lvl_to_full F cal cal.full_dist ≡ pos 0)
  unfolding lvl_to_full pct filled
  tank_lem x y h = (
    clamp_mono (rounded (filled y)) (rounded (filled x)) (pos 0) (pos 100)
        (rounded_mono laws _ _ (filled_anti x y h)),
    (clamp_bounds (rounded (filled y)) (pos 0) (pos 100) (omega arith)).0,
    (clamp_bounds (rounded (filled x)) (pos 0) (pos 100) (omega arith)).1,
    rw (rounded_exact laws _ (pos 100) (omega arith) filled-full) refl,
    rw (rounded_exact laws _ (pos 0) (omega arith) filled-empty) refl,
    rounded_mono laws _ _ (sub_mono cal.full_dist x y tank.full h),
    rounded_exact laws _ (pos 0) (omega arith) (sub_self cal.full_dist tank.full),
  )
