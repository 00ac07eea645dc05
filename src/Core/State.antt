-- ===== src/Core/State.antt =====
-- aquilo-core/src/state.rs
use mathlib.Core.Option
use aquilo_offline.Base.{ℤ, F64, Option, List, [], ◌∷◌, Str, codes}
use aquilo_offline.Base.Json.{Json}
use aquilo_offline.Core.Battery.{Point, percent}
use aquilo_offline.Core.Calibration.{Calibration, pct, lvl_to_full}
use aquilo_offline.Core.Reading.{Reading}

pub record StaticFields : Type 0 where
  pub sensor_id : Str
  pub name : Str
  pub lst_empty : Str
  pub days_left : ℤ
  pub from : Str

pub record SensorState (R : Type 0) : Type 0 where
  pub id : Str
  pub name : Str
  pub lvl : R
  pub pct : ℤ
  pub bat : ℤ
  pub lst_read : Str
  pub lst_empty : Str
  pub days_left : ℤ
  pub lvl_to_full : ℤ
  pub from : Str

module _ {R : Type 0} (F : F64 R) where
  -- `none` where the battery curve panics.
  unfoldable pub compute :
      Reading R → Calibration R → List Point → StaticFields → Str → Option (SensorState R)
  compute reading cal battery statics lst_read =
      Option.map
        (λ bat. record {
          id = statics.sensor_id;
          name = statics.name;
          lvl = reading.level_cm;
          pct = pct F cal reading.level_cm;
          bat = bat;
          lst_read = lst_read;
          lst_empty = statics.lst_empty;
          days_left = statics.days_left;
          lvl_to_full = lvl_to_full F cal reading.level_cm;
          from = statics.from;
        })
        (percent F battery reading.battery_mv)

module _ {V R : Type 0} (J : Json V R) where
  open J use {object, array, string, int, float}

  unfoldable pub to_json : SensorState R → V
  to_json s = object (
      (
        codes "sensors",
        array (
            object (
              (codes "id", string s.id)
              ∷ (codes "lvl", float s.lvl)
              ∷ (codes "pct", int s.pct)
              ∷ (codes "bat", int s.bat)
              ∷ (codes "lstRead", string s.lst_read)
              ∷ (codes "lstEmpty", string s.lst_empty)
              ∷ (codes "daysLeft", int s.days_left)
              ∷ (codes "name", string s.name)
              ∷ (codes "lvlToFull", int s.lvl_to_full)
              ∷ [])
            ∷ []),
      )
      ∷ (codes "from", string s.from)
      ∷ [])
