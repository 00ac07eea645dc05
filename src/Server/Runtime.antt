-- ===== src/Server/Runtime.antt =====
-- `Runtime` of aquilo-server/src/server.rs, its seed, its start from the store, and the transition
-- for one reading. The clock's reading `now` is an argument. The `Store` trait of aquilo-store is
-- an interface over a type `S` of stores.
use aquilo_offline.Base.{
  ℕ, ℤ, F64, Bool, Option, some, List, [], ◌∷◌, ◌++◌, Str, ◌-◌, ltb, length, drop, if◌then◌else◌,
  unwrap_or, ◌>>=◌,
}
use aquilo_offline.Core.Battery.{Point, percent}
use aquilo_offline.Core.Calibration.{Calibration, pct}
use aquilo_offline.Core.History.{ReadingRecord, is_pump_out, days_left}
use aquilo_offline.Core.Reading.{Reading}
use aquilo_offline.Core.State.{SensorState, StaticFields, compute}
use aquilo_offline.Server.Config.{Config}

-- aquilo-store/src/lib.rs
pub record PersistedState (R : Type 0) : Type 0 where
  pub history : List (ReadingRecord R)
  pub lst_empty : Str
  pub last_state : Option (SensorState R)
  pub calibration : Calibration R

-- What `Store::load` returns: `Ok(Some(p))`, `Ok(None)`, or an error.
pub data Loaded (R : Type 0) : Type 0 where
  found : PersistedState R → Loaded R
  absent failed : Loaded R

-- `save` returns the store as it is left, and whether it succeeded.
pub record Store (S R : Type 0) : Type 0 where
  pub load : S → Loaded R
  pub save : S → PersistedState R → S × Bool

pub record Runtime (R : Type 0) : Type 0 where
  pub current : SensorState R
  pub history : List (ReadingRecord R)
  pub lst_empty : Str

-- `if s.is_empty() { d } else { s }`
abbrev pub or_if_empty : Str → Str → Str
or_if_empty [] d = d
or_if_empty (c ∷ s) d = c ∷ s

module _ {R : Type 0} where
  unfoldable pub statics : Config R → Str → ℤ → StaticFields
  statics cfg lst_empty days_left = record {
    sensor_id = cfg.sensor_id;
    name = cfg.sensor_name;
    lst_empty = lst_empty;
    days_left = days_left;
    from = cfg.state.from;
  }

  unfoldable pub seed_state : Config R → Str → SensorState R
  seed_state cfg lst_read = record {
    id = cfg.sensor_id;
    name = cfg.sensor_name;
    lvl = cfg.state.lvl;
    pct = cfg.state.pct;
    bat = cfg.state.bat;
    lst_read = lst_read;
    lst_empty = cfg.state.lst_empty;
    days_left = cfg.state.days_left;
    lvl_to_full = cfg.state.lvl_to_full;
    from = cfg.state.from;
  }

  unfoldable pub seed_runtime : Config R → Str → Runtime R
  unfolding seed_state
  seed_runtime cfg now = record {
    current = seed_state cfg now;
    history = [];
    lst_empty = cfg.state.lst_empty;
  }

  unfoldable pub runtime_of : Config R → Str → Loaded R → Runtime R
  unfolding seed_runtime
  runtime_of cfg now (found p) = record {
    current = unwrap_or p.last_state (seed_state cfg now);
    history = p.history;
    lst_empty = or_if_empty p.lst_empty cfg.state.lst_empty;
  }
  runtime_of cfg now absent = seed_runtime cfg now
  runtime_of cfg now failed = seed_runtime cfg now

  -- The snapshot that `persist` saves.
  unfoldable pub snapshot : Config R → Runtime R → PersistedState R
  snapshot cfg rt = record {
    history = rt.history;
    lst_empty = rt.lst_empty;
    last_state = some rt.current;
    calibration = cfg.calibration;
  }

  -- `self.history.len() > cap` drains the oldest records beyond the cap.
  unfoldable pub trim_history : ℕ → List (ReadingRecord R) → List (ReadingRecord R)
  trim_history cap history =
      if ltb cap (length history) then drop (length history - cap) history else history

module _ {S R : Type 0} (St : Store S R) where
  unfoldable pub load_runtime : Config R → S → Str → Runtime R
  unfolding runtime_of
  load_runtime cfg store now = runtime_of cfg now (St.load store)

  -- A failed save is logged and goes no further.
  unfoldable pub persist : S → Config R → Runtime R → S
  unfolding snapshot
  persist store cfg rt = (St.save store (snapshot cfg rt)).0

module _ {R : Type 0} (F : F64 R) (parse_ts : Str → Option ℤ) where
  -- `Runtime::apply_reading`; `none` is the panic of an empty battery curve.
  unfoldable pub apply_reading :
      Runtime R → Config R → List Point → Reading R → Str → Option (Runtime R)
  unfolding statics trim_history
  apply_reading rt cfg battery reading now = do
    bat ← percent F battery reading.battery_mv
    let new_pct = pct F cfg.calibration reading.level_cm
    let lst_empty =
        if is_pump_out rt.current.pct new_pct cfg.pump_out_drop_pct then now else rt.lst_empty
    let pushed = rt.history ++ (record { ts = now; lvl = reading.level_cm; bat = bat }) ∷ []
    let history = trim_history cfg.history_max_len pushed
    let days =
        unwrap_or (days_left F parse_ts history cfg.calibration.full_dist) rt.current.days_left
    current ← compute F reading cfg.calibration battery (statics cfg lst_empty days) now
    some (record { current = current; history = history; lst_empty = lst_empty })
