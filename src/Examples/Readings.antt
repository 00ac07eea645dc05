-- ===== src/Examples/Readings.antt =====
-- Runs of the core on concrete readings, with the numbers of Toy.
use mathlib.Core.List.{Perm}
use aquilo_offline.Base.{
  ℕ, ◌*◌, Option, none, ℤ, pos, negsuc, ◌≤ℤ◌, ◌≤◌, ◌≡◌, ◌⊎◌, refl, arith, some, List, [], ◌∷◌,
  codes, length,
}
use aquilo_offline.Core.Battery.{Point, new_curve, last_point, percent}
use aquilo_offline.Core.History.{ReadingRecord, days_since, levels, moments, project, days_left}
use aquilo_offline.Core.Projection.{AreTimed}
use aquilo_offline.Core.Reading.{RawFrame, ok, parse_frame}
use aquilo_offline.Core.Telemetry.{underscored, frame_parts, parse_frame-underscored}
use aquilo_offline.Core.Windows.{IsAscending, Between, percent_lem}
use aquilo_offline.Core.Battery.{default_points}
use aquilo_offline.Core.Calibration.{Calibration, pct, lvl_to_full}
use aquilo_offline.Core.Estimate.{days_left_bounds}
use aquilo_offline.Core.Curve.{percent_mono}
use aquilo_offline.Core.Sorting.{at_voltage, new_curve_stable}
use aquilo_offline.Core.Tank.{tank_lem}
use aquilo_offline.Examples.Exact.{hundredths_laws}
use aquilo_offline.Examples.Toy.{hundredths}

abbrev frame : RawFrame
frame = record {
  version = codes "e23";
  sensor = codes "ae5058";
  level_mm = pos 1502;
  battery_mv = pos 3770;
  amp = pos 59;
  temp = negsuc 4;
  read_no = pos 73044;
  last_sent = pos 72976;
  rest = pos 1 ∷ pos 2 ∷ [];
}

parse_frame-underscored_example : parse_frame (underscored (frame_parts frame)) ≡ ok frame
parse_frame-underscored_example = parse_frame-underscored frame (record {
  version = (omega arith, (refl, (refl, (refl, tt))));
  sensor = (omega arith, (refl, (refl, (refl, (refl, (refl, (refl, tt)))))));
  level_mm = omega arith;
  battery_mv = omega arith;
  amp = omega arith;
  temp = omega arith;
  read_no = omega arith;
  last_sent = omega arith;
  rest = (omega arith, (omega arith, tt));
})

-- A table with two breakpoints at one voltage.
abbrev table : List Point
table = (pos 4000, pos 100) ∷ (pos 3000, pos 0) ∷ (pos 4000, pos 90) ∷ []

new_curve_stable_example :
    IsAscending (new_curve table)
    × Perm (new_curve table) table
    × ((v : ℤ) → at_voltage v (new_curve table) ≡ at_voltage v table)
new_curve_stable_example = new_curve_stable table

percent_lem_example :
    (v : ℤ) × (percent hundredths ((pos 3000, pos 0) ∷ (pos 4000, pos 100) ∷ []) (pos 3500)
      ≡ some v)
    × ((pos 3500 ≤ℤ pos 3000) × (v ≡ pos 0)
        ⊎ (pos 4000 ≤ℤ pos 3500) × (v ≡ pos 100)
        ⊎ Between hundredths ((pos 3000, pos 0) ∷ (pos 4000, pos 100) ∷ []) (pos 3500) v)
unfolding last_point
percent_lem_example = percent_lem hundredths (pos 3000, pos 0) ((pos 4000, pos 100) ∷ []) (pos 3500)

-- The level falls from 100 to 90 between the seconds 97 and 98.
abbrev readings : List (ReadingRecord ℤ)
readings =
    record { ts = codes "a"; lvl = pos 10000; bat = pos 83 }
    ∷ record { ts = codes "z"; lvl = pos 9000; bat = pos 83 }
    ∷ []

-- A clock that runs: a letter is a day.
abbrev days_of : List ℕ → Option ℤ
days_of [] = none
days_of (c ∷ s) = some (pos (c * 86400))

abbrev tank : Calibration ℤ
tank = record { full_dist = pos 4000; empty_dist = pos 17800 }

tank_lem_example :
    (pct hundredths tank (pos 15020) ≤ℤ pct hundredths tank (pos 9000))
    × (pos 0 ≤ℤ pct hundredths tank (pos 15020))
    × (pct hundredths tank (pos 9000) ≤ℤ pos 100)
    × (pct hundredths tank (pos 4000) ≡ pos 100)
    × (pct hundredths tank (pos 17800) ≡ pos 0)
    × (lvl_to_full hundredths tank (pos 9000) ≤ℤ lvl_to_full hundredths tank (pos 15020))
    × (lvl_to_full hundredths tank (pos 4000) ≡ pos 0)
tank_lem_example =
    tank_lem hundredths_laws tank (record { full = refl; empty = refl; span = refl; nearer = refl })
      (pos 9000) (pos 15020) refl

percent_mono_example :
    (a : ℤ) × (b : ℤ) × (percent hundredths default_points (pos 3700) ≡ some a)
    × (percent hundredths default_points (pos 4100) ≡ some b)
    × (pos 0 ≤ℤ a)
    × (a ≤ℤ b)
    × (b ≤ℤ pos 100)
unfolding default_points last_point
percent_mono_example =
    percent_mono hundredths_laws (pos 3300, pos 0) ((pos 3770, pos 83) ∷ (pos 4200, pos 100) ∷ [])
      (pos 3700) (pos 4100)
      (
        record { mv = omega arith; pct = omega arith },
        omega arith,
        (
          record { mv = omega arith; pct = omega arith },
          omega arith,
          record { mv = omega arith; pct = omega arith },
        ),
      )
      (omega arith)

days_left_bounds_example :
    (2 ≤ length readings) × AreTimed hundredths days_of readings × (pos 0 ≤ℤ pos 125)
days_left_bounds_example =
    days_left_bounds hundredths_laws days_of readings (pos 4000) (pos 125)
      (unfold days_left days_since levels moments project in refl)
