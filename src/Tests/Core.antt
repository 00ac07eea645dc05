-- ===== src/Tests/Core.antt =====
-- The unit tests of calibration.rs, battery.rs and history.rs in aquilo-core. Numbers are those of any
-- `f64`; the proofs compute with the hundredths of Examples.Toy, which hold every literal exactly.
use aquilo_offline.Base.{
  ℕ, zero, suc, ◌+◌, ◌&&◌, ℤ, pos, negsuc, leb_ℤ, ◌*◌, ◌-◌, ◌≡◌, ◌≢◌, refl, F64, tenths, whole,
  Bool, true, false, Option, some, none, List, [], ◌∷◌, Str, codes, get_elem?, unwrap_or,
}
use aquilo_offline.Core.Battery.{
  default_points, new_curve, insert_point, percent, last_point, windows_loop, interpolate,
}
use aquilo_offline.Core.Calibration.{
  Calibration, default_calibration, default_full_dist, default_empty_dist, pct, lvl_to_full,
}
use aquilo_offline.Core.History.{
  ReadingRecord, is_pump_out, days_left, days_since, levels, moments, project,
}
use aquilo_offline.Examples.Toy.{hundredths}

module _ {R : Type 0} (F : F64 R) where
  -- The captured samples: `lvl`, `pct` and `lvlToFull`.
  abbrev samples : List (R × ℤ × ℤ)
  samples =
      (tenths F (pos 1528), pos 18, pos 113)
      ∷ (tenths F (pos 1504), pos 20, pos 110)
      ∷ (tenths F (pos 1502), pos 20, pos 110)
      ∷ []

  abbrev Reproduced : Calibration R → List (R × ℤ × ℤ) → Type 0
  Reproduced cal [] = Unit
  Reproduced cal ((lvl, p, to_full) ∷ rest) =
      (pct F cal lvl ≡ p) × (lvl_to_full F cal lvl ≡ to_full) × Reproduced cal rest

  abbrev ReproducesCapturedSamples : Type 0
  ReproducesCapturedSamples = Reproduced (default_calibration F) samples

  abbrev CalibrationDrivesTheFormulas : Type 0
  CalibrationDrivesTheFormulas =
      let lvl = tenths F (pos 1502) in
      let stretched : Calibration R = record {
        full_dist = whole F (pos 30);
        empty_dist = whole F (pos 200);
      } in
      (pct F stretched lvl ≢ pct F (default_calibration F) lvl)
      × (pct F stretched lvl ≡ pos 29)
      × (lvl_to_full F stretched lvl ≡ pos 120)

  abbrev ClampsPercentageTo0100 : Type 0
  ClampsPercentageTo0100 =
      (pct F (default_calibration F) (whole F (pos 10)) ≡ pos 100)
      × (pct F (default_calibration F) (whole F (pos 250)) ≡ pos 0)

  abbrev ReproducesTheCapturedPoint : Type 0
  ReproducesTheCapturedPoint = percent F default_points (pos 3770) ≡ some (pos 83)

  abbrev ClampsOutsideTheTable : Type 0
  ClampsOutsideTheTable =
      (percent F default_points (pos 3000) ≡ some (pos 0))
      × (percent F default_points (pos 5000) ≡ some (pos 100))

  -- The loop over the voltages from `mv` on, in steps of 50.
  abbrev never_falls : ℕ → ℤ → ℕ → Bool
  never_falls zero last mv = true
  never_falls (suc n) last mv = elim (percent F default_points (pos mv)) [
    | none ↦ false
    | some next ↦ leb_ℤ last next && never_falls n next (mv + 50)
  ]

  abbrev InterpolatesAndIsMonotonic : Type 0
  InterpolatesAndIsMonotonic =
      (percent F default_points (pos 3535) ≡ some (pos 42))
      × (never_falls 23 (negsuc 0) 3200 ≡ true)

  abbrev AcceptsUnsortedCustomBreakpoints : Type 0
  AcceptsUnsortedCustomBreakpoints =
      percent F (new_curve ((pos 4000, pos 100) ∷ (pos 3000, pos 0) ∷ [])) (pos 3500)
      ≡ some (pos 50)

module _ {R : Type 0} (F : F64 R) (parse_ts : Str → Option ℤ) where
  abbrev rec : Str → R → ReadingRecord R
  rec ts lvl = record { ts = ts; lvl = lvl; bat = pos 83 }

  abbrev ProjectsDaysLeftFromASteadyFillRate : Type 0
  ProjectsDaysLeftFromASteadyFillRate =
      let history =
        rec (codes "2026-06-01T00:00:00+02:00") (whole F (pos 150))
        ∷ rec (codes "2026-06-02T00:00:00+02:00") (whole F (pos 140))
        ∷ rec (codes "2026-06-03T00:00:00+02:00") (whole F (pos 130))
        ∷ rec (codes "2026-06-04T00:00:00+02:00") (whole F (pos 120))
        ∷ rec (codes "2026-06-05T00:00:00+02:00") (whole F (pos 110))
        ∷ [] in
      days_left F parse_ts history (whole F (pos 40)) ≡ some (pos 7)

  abbrev NoEstimateWithoutEnoughHistory : Type 0
  NoEstimateWithoutEnoughHistory =
      let history = rec (codes "2026-06-01T00:00:00+02:00") (whole F (pos 150)) ∷ [] in
      days_left F parse_ts history (whole F (pos 40)) ≡ none

  abbrev NoEstimateWhenTheTankIsNotFilling : Type 0
  NoEstimateWhenTheTankIsNotFilling =
      let history =
        rec (codes "2026-06-01T00:00:00+02:00") (whole F (pos 110))
        ∷ rec (codes "2026-06-02T00:00:00+02:00") (whole F (pos 120))
        ∷ rec (codes "2026-06-03T00:00:00+02:00") (whole F (pos 130))
        ∷ [] in
      days_left F parse_ts history (whole F (pos 40)) ≡ none

abbrev DetectsAPumpOutFromALargeFullnessDrop : Type 0
DetectsAPumpOutFromALargeFullnessDrop = is_pump_out (pos 80) (pos 10) (pos 25) ≡ true

abbrev NormalFluctuationsAreNotPumpOuts : Type 0
NormalFluctuationsAreNotPumpOuts =
    (is_pump_out (pos 20) (pos 18) (pos 25) ≡ false)
    × (is_pump_out (pos 18) (pos 22) (pos 25) ≡ false)

detects_a_pump_out_from_a_large_fullness_drop : DetectsAPumpOutFromALargeFullnessDrop
unfolding is_pump_out
detects_a_pump_out_from_a_large_fullness_drop = refl

normal_fluctuations_are_not_pump_outs : NormalFluctuationsAreNotPumpOuts
unfolding is_pump_out
normal_fluctuations_are_not_pump_outs = (refl, refl)

-- The timestamps of these tests, midnights of one month, by the last digit of the day.
abbrev midnight : Str → Option ℤ
midnight ts = some (pos (86400 * (unwrap_or (get_elem? ts 9) 0 - b'0')))

projects_days_left_from_a_steady_fill_rate : ProjectsDaysLeftFromASteadyFillRate hundredths midnight
unfolding days_left days_since levels moments project
projects_days_left_from_a_steady_fill_rate = refl

no_estimate_without_enough_history : NoEstimateWithoutEnoughHistory hundredths midnight
unfolding days_left
no_estimate_without_enough_history = refl

no_estimate_when_the_tank_is_not_filling : NoEstimateWhenTheTankIsNotFilling hundredths midnight
unfolding days_left days_since levels moments project
no_estimate_when_the_tank_is_not_filling = refl

reproduces_captured_samples : ReproducesCapturedSamples hundredths
unfolding pct lvl_to_full default_calibration default_full_dist default_empty_dist
reproduces_captured_samples = (refl, refl, (refl, refl, (refl, refl, tt)))

calibration_drives_the_formulas : CalibrationDrivesTheFormulas hundredths
unfolding pct lvl_to_full default_calibration default_full_dist default_empty_dist
calibration_drives_the_formulas = (λ e. cc, refl, refl)

clamps_percentage_to_0_100 : ClampsPercentageTo0100 hundredths
unfolding pct default_calibration default_full_dist default_empty_dist
clamps_percentage_to_0_100 = (refl, refl)

reproduces_the_captured_point : ReproducesTheCapturedPoint hundredths
unfolding percent default_points last_point windows_loop interpolate
reproduces_the_captured_point = refl

clamps_outside_the_table : ClampsOutsideTheTable hundredths
unfolding percent default_points last_point windows_loop interpolate
clamps_outside_the_table = (refl, refl)

accepts_unsorted_custom_breakpoints : AcceptsUnsortedCustomBreakpoints hundredths
unfolding percent new_curve insert_point last_point windows_loop interpolate
accepts_unsorted_custom_breakpoints = refl

interpolates_and_is_monotonic : InterpolatesAndIsMonotonic hundredths
unfolding percent default_points last_point windows_loop interpolate
interpolates_and_is_monotonic = (refl, refl)
