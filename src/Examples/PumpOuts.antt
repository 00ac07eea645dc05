-- ===== src/Examples/PumpOuts.antt =====
-- Readings one after the other, with the stand-ins of Toy.
use aquilo_offline.Base.{ℕ, ℤ, pos, ◌≡◌, arith, some, none, List, [], ◌∷◌, codes, Str}
use aquilo_offline.Core.Calibration.{pct}
use aquilo_offline.Core.Reading.{Reading}
use aquilo_offline.Examples.Toy.{hundredths, parse_ts, config}
use aquilo_offline.Server.Batch.{apply_readings}
use aquilo_offline.Server.PumpOut.{Settles, apply_readings-Settles}
use aquilo_offline.Server.Runtime.{Runtime, seed_runtime}

abbrev now : Str
now = codes "T"

abbrev reading : ℕ → Reading ℤ
reading level_cm = record {
  sensor = codes "n4";
  version = none;
  level_cm = pos level_cm;
  battery_mv = pos 3770;
  read_no = none;
  last_sent = none;
  amp1 = none;
  temp = none;
  raw = none;
}

-- The level falls from 60 to 20 percent, a pump-out, and stays there.
abbrev readings : List (Reading ℤ × Str)
readings = (reading 15020, codes "U") ∷ (reading 15030, codes "V") ∷ []

apply_readings-Settles_example :
    (rt' : Runtime ℤ) × (apply_readings hundredths parse_ts config
        (seed_runtime config now)
        readings
      ≡ some rt')
    × Settles hundredths parse_ts config (seed_runtime config now) readings rt'
apply_readings-Settles_example =
    apply_readings-Settles hundredths parse_ts config (seed_runtime config now) readings
      (unfold seed_runtime in omega arith) (unfold seed_runtime in omega arith)
      (unfold pct in omega arith)
