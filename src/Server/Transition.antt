-- ===== src/Server/Transition.antt =====
-- The transition for one reading: what it does to the history, the pump-out baseline and the state.
use aquilo_offline.Base.{
  lengths, ℕ, ℤ, ◌+◌, ◌-◌, ◌≤◌, ◌≡◌, refl, arith, F64, Option, some, List, [], ◌∷◌, ◌++◌, Str,
  length, drop, length-append, ltb, if◌then◌else◌, unwrap_or, inl, inr, Bool-cases,
}
use aquilo_offline.Core.Battery.{Point, percent}
use aquilo_offline.Core.Calibration.{pct, lvl_to_full}
use aquilo_offline.Core.History.{ReadingRecord, is_pump_out, days_left}
use aquilo_offline.Core.Reading.{Reading}
use aquilo_offline.Core.State.{compute}
use aquilo_offline.Server.Config.{Config}
use aquilo_offline.Server.Runtime.{Runtime, trim_history, statics, apply_reading}

module _ {R : Type 0} where
  pub length-trim_history :
      (cap : ℕ) (h : List (ReadingRecord R)) → length (trim_history cap h) ≤ cap
  unfolding trim_history
  length-trim_history cap h = grind (arith, lengths)

  -- What is kept is the end of the list, and all of it where it fits.
  trim_history_lem :
      (cap : ℕ) (h : List (ReadingRecord R)) → trim_history cap h ≡ drop (length h - cap) h
  unfolding trim_history
  trim_history_lem cap h = elim (Bool-cases (ltb cap (length h))) [
    | inl over ↦ rw over refl
    | inr fits ↦ let none_over : length h - cap ≡ 0 = ground arith in rw (fits, none_over) refl
  ]

module _ {R : Type 0} (F : F64 R) (parse_ts : Str → Option ℤ) where
  -- What a reading does to the runtime `rt`, with the battery at `bat` percent.
  pub record Applied (rt : Runtime R) (cfg : Config R) (reading : Reading R) (now : Str) (bat : ℤ)
      (rt' : Runtime R) : Type 0 where
    pub history :
        rt'.history
        ≡ drop
            (length rt.history + 1 - cfg.history_max_len)
            (rt.history ++ (record { ts = now; lvl = reading.level_cm; bat = bat }) ∷ [])
    pub capped : length rt'.history ≤ cfg.history_max_len
    pub baseline : rt'.lst_empty ≡ (
        if is_pump_out rt.current.pct (pct F cfg.calibration reading.level_cm) cfg.pump_out_drop_pct
        then now
        else rt.lst_empty)
    pub days :
        rt'.current.days_left
        ≡ unwrap_or
            (days_left F parse_ts rt'.history cfg.calibration.full_dist)
            rt.current.days_left
    pub level : rt'.current.lvl ≡ reading.level_cm
    pub fullness : rt'.current.pct ≡ pct F cfg.calibration reading.level_cm
    pub to_full : rt'.current.lvl_to_full ≡ lvl_to_full F cfg.calibration reading.level_cm
    pub battery : rt'.current.bat ≡ bat
    pub read_at : rt'.current.lst_read ≡ now
    pub emptied_at : rt'.current.lst_empty ≡ rt'.lst_empty
    pub identity :
        (rt'.current.id ≡ cfg.sensor_id)
        × (rt'.current.name ≡ cfg.sensor_name)
        × (rt'.current.from ≡ cfg.state.from)

  -- The runtime that a reading leaves.
  applied : Runtime R → Config R → Reading R → Str → ℤ → Runtime R
  unfolding statics
  applied rt cfg reading now bat =
      let lst_empty =
        if is_pump_out rt.current.pct (pct F cfg.calibration reading.level_cm) cfg.pump_out_drop_pct
        then now
        else rt.lst_empty in
      let history =
        trim_history cfg.history_max_len
          (rt.history ++ (record { ts = now; lvl = reading.level_cm; bat = bat }) ∷ []) in
      record {
        history = history;
        lst_empty = lst_empty;
        current = record {
          id = cfg.sensor_id;
          name = cfg.sensor_name;
          lvl = reading.level_cm;
          pct = pct F cfg.calibration reading.level_cm;
          bat = bat;
          lst_read = now;
          lst_empty = lst_empty;
          days_left =
              unwrap_or (days_left F parse_ts history cfg.calibration.full_dist)
                rt.current.days_left;
          lvl_to_full = lvl_to_full F cfg.calibration reading.level_cm;
          from = cfg.state.from;
        };
      }

  applied-Applied :
      (rt : Runtime R) (cfg : Config R) (reading : Reading R) (now : Str) (bat : ℤ)
      → Applied rt cfg reading now bat (applied rt cfg reading now bat)
  unfolding applied
  applied-Applied rt cfg reading now bat =
      let r : ReadingRecord R = record { ts = now; lvl = reading.level_cm; bat = bat } in
      let pushed = rt.history ++ r ∷ [] in
      let grown : length pushed ≡ length rt.history + 1 = length-append rt.history (r ∷ []) in
      record {
        history = rw (← grown) (trim_history_lem cfg.history_max_len pushed);
        capped = length-trim_history cfg.history_max_len pushed;
        baseline = refl;
        days = refl;
        level = refl;
        fullness = refl;
        to_full = refl;
        battery = refl;
        read_at = refl;
        emptied_at = refl;
        identity = (refl, refl, refl);
      }

  -- With a battery curve that gives the reading a percentage, a reading is always applied, and then:
  -- the record of it is at the end of the history, which loses its oldest records beyond the cap;
  -- `lstEmpty` moves to `now` exactly on a pump-out; `daysLeft` is projected over the new history, or
  -- kept; the published state has the same `lstEmpty` and the reading's values.
  pub apply_reading-Applied :
      (rt : Runtime R) (cfg : Config R) (battery : List Point) (reading : Reading R) (now : Str)
      {bat : ℤ}
      → percent F battery reading.battery_mv ≡ some bat
      → (rt' : Runtime R) × (apply_reading F parse_ts rt cfg battery reading now ≡ some rt')
        × Applied rt cfg reading now bat rt'
  unfolding apply_reading compute
  apply_reading-Applied rt cfg battery reading now {bat} e = (
    applied rt cfg reading now bat,
    rw e (unfold applied in refl),
    applied-Applied rt cfg reading now bat,
  )
