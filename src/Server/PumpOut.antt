-- ===== src/Server/PumpOut.antt =====
-- The runtime of server.rs over any readings, one after the other: the history, the pump-out baseline,
-- the estimate and the state.
use mathlib.Core.Path.{subst}
use aquilo_offline.Base.{
  ℤ, pos, ◌≤◌, ◌≤ℤ◌, ◌-ℤ◌, ◌≡◌, refl, sym, ◌∙◌, ap, F64, Option, some, [], ◌∷◌, ◌++◌, ◌⊎◌, Str, All,
  length, append-nil, unwrap_or, if◌then◌else◌, ◌>>=◌, inl, inr, Bool-cases,
}
use aquilo_offline.Core.Battery.{default_points}
use aquilo_offline.Core.Calibration.{lvl_to_full}
use aquilo_offline.Core.History.{is_pump_out}
use aquilo_offline.Core.Projection.{IsPct, is_pump_out_iff}
use aquilo_offline.Core.Reading.{Reading}
use aquilo_offline.Server.Config.{Config}
use aquilo_offline.Server.History.{default-percent}
use aquilo_offline.Server.Runtime.{Runtime}
use aquilo_offline.Server.Transition.{apply_reading-Applied}
use aquilo_offline.Server.Batch.{
  last_of, Readings, fullness, battery, apply_readings, last_value, records, estimate, fits_whole,
  grown_by_one, grown, estimate-step, emptied,
}

module _ {R : Type 0} (F : F64 R) (parse_ts : Str → Option ℤ) (cfg : Config R) where
  abbrev fill : Reading R → ℤ
  fill = fullness F parse_ts cfg

  abbrev charge_of : Reading R → ℤ
  charge_of = battery F parse_ts cfg

  abbrev last : {X : Type 0} → (Reading R → Str → X) → X → Readings F parse_ts cfg → X
  last {X} = last_value F parse_ts cfg {X = X}

  -- From a fullness of `old` percent on, no reading is lower than the one before by the configured
  -- drop.
  abbrev pub IsSteady : ℤ → Readings F parse_ts cfg → Type 0
  IsSteady old [] = Unit
  IsSteady old ((reading, now) ∷ rs) =
      (¬ (cfg.pump_out_drop_pct ≤ℤ old -ℤ fill reading)) × IsSteady (fill reading) rs

  -- The baseline is the time of the last pump-out among the readings, or the old one without any.
  abbrev pub Baseline : ℤ → Str → Readings F parse_ts cfg → Str → Type 0
  Baseline old since rs lst_empty =
      IsSteady old rs × (lst_empty ≡ since)
      ⊎ (before : Readings F parse_ts cfg) × (reading : Reading R) × (now : Str)
        × (behind : Readings F parse_ts cfg) × (rs ≡ before ++ (reading, now) ∷ behind)
        × (cfg.pump_out_drop_pct ≤ℤ last (λ r t. fill r) old before -ℤ fill reading)
        × IsSteady (fill reading) behind
        × (lst_empty ≡ now)

  pub record Settles (rt : Runtime R) (rs : Readings F parse_ts cfg) (rt' : Runtime R)
      : Type 0 where
    pub history :
        rt'.history ≡ last_of cfg.history_max_len (rt.history ++ records F parse_ts cfg rs)
    pub baseline : Baseline rt.current.pct rt.lst_empty rs rt'.lst_empty
    pub emptied_at : (rs ≡ []) ⊎ (rt'.current.lst_empty ≡ rt'.lst_empty)
    pub days : rt'.current.days_left ≡ estimate F parse_ts cfg rt.history rt.current.days_left rs
    pub level : rt'.current.lvl ≡ last (λ r t. r.level_cm) rt.current.lvl rs
    pub percentage : rt'.current.pct ≡ last (λ r t. fill r) rt.current.pct rs
    pub charge : rt'.current.bat ≡ last (λ r t. charge_of r) rt.current.bat rs
    pub to_full :
        rt'.current.lvl_to_full
        ≡ last
            (λ r t. F.as_i64 (F.round (F.sub r.level_cm cfg.calibration.full_dist)))
            rt.current.lvl_to_full
            rs
    pub read_at : rt'.current.lst_read ≡ last (λ r t. t) rt.current.lst_read rs
    pub id : rt'.current.id ≡ last (λ r t. cfg.sensor_id) rt.current.id rs
    pub name : rt'.current.name ≡ last (λ r t. cfg.sensor_name) rt.current.name rs
    pub from : rt'.current.from ≡ last (λ r t. cfg.state.from) rt.current.from rs

  Baseline-step :
      (reading : Reading R) (now since : Str) (old : ℤ) (rs : Readings F parse_ts cfg)
      (lst_empty : Str)
      → IsPct old
      → IsPct (fill reading)
      → Baseline
          (fill reading)
          (if is_pump_out old (fill reading) cfg.pump_out_drop_pct then now else since)
          rs
          lst_empty
      → Baseline old since ((reading, now) ∷ rs) lst_empty
  Baseline-step reading now since old rs lst_empty p q (inr (before, r, t, behind, e, fall, k, m)) =
      inr ((reading, now) ∷ before, r, t, behind, ap (λ l. (reading, now) ∷ l) e, fall, k, m)
  Baseline-step reading now since old rs lst_empty p q (inl (steady, same)) =
      let falls = is_pump_out_iff old (fill reading) cfg.pump_out_drop_pct p q in
      elim (Bool-cases (is_pump_out old (fill reading) cfg.pump_out_drop_pct)) [
        | inl e ↦ inr ([], reading, now, rs, refl, falls.0 e, steady, rw e at same)
        | inr e ↦ inl ((λ fall. let b = falls.1 fall in cc, steady), rw e at same)
      ]

  -- With the default battery curve any readings are applied, whose percentages, like the one before
  -- them, are between 0 and 100, to a history within the cap. Then: the history is the end, of the
  -- cap's length, of the old one and the records of all readings; the pump-out baseline is the time of
  -- the last reading that is lower than the one before by the configured drop at least, and it is as it
  -- was if there is none, and a state behind a reading has this baseline; its estimate of the days left
  -- is the last that the records up to a reading give, or the old one; it has the level, the percentage,
  -- the battery's charge, the distance to full and the time of the last reading, and the names of the
  -- config.
  pub apply_readings-Settles :
      (rt : Runtime R) (rs : Readings F parse_ts cfg)
      → length rt.history ≤ cfg.history_max_len
      → IsPct rt.current.pct
      → All (λ x. IsPct (fill x.0)) rs
      → (rt' : Runtime R) × (apply_readings F parse_ts cfg rt rs ≡ some rt') × Settles rt rs rt'
  unfolding apply_readings lvl_to_full
  apply_readings-Settles rt [] h p all = (
    rt,
    refl,
    record {
      history =
          sym (ap (last_of _) (append-nil rt.history) ∙ fits_whole F parse_ts cfg rt.history h);
      baseline = inl (tt, refl);
      emptied_at = inl refl;
      days = refl;
      level = refl;
      percentage = refl;
      charge = refl;
      to_full = refl;
      read_at = refl;
      id = refl;
      name = refl;
      from = refl;
    },
  )
  apply_readings-Settles rt ((reading, now) ∷ rs) h p all =
      let (bat, eq) = default-percent F reading.battery_mv in
      let (rt1, step, a) = apply_reading-Applied F parse_ts rt cfg default_points reading now eq in
      let now_pct : IsPct rt1.current.pct = rw a.fullness all.0 in
      let (rt', later, k) = apply_readings-Settles rt1 rs a.capped now_pct all.1 in
      let one = grown_by_one F parse_ts cfg rt rt1 reading now eq a in
      let charged : rt1.current.bat ≡ charge_of reading =
        a.battery ∙ ap (λ o. unwrap_or o (pos 0)) (sym eq) in
      (
        rt',
        ap (λ o. o >>= λ r. apply_readings F parse_ts cfg r rs) step ∙ later,
        record {
          history = grown F parse_ts cfg rt rt1 reading now rs one k.history;
          baseline =
              Baseline-step reading now rt.lst_empty rt.current.pct rs rt'.lst_empty p all.0 (
                subst (λ s. Baseline (fill reading) s rs rt'.lst_empty) a.baseline
                  (subst (λ z. Baseline z rt1.lst_empty rs rt'.lst_empty) a.fullness k.baseline));
          emptied_at = inr (emptied F parse_ts cfg rt1 rs rt' a.emptied_at later);
          days = k.days ∙ estimate-step F parse_ts cfg rt rt1 reading now rs a one;
          level = k.level ∙ ap (λ x. last (λ r t. r.level_cm) x rs) a.level;
          percentage = k.percentage ∙ ap (λ x. last (λ r t. fill r) x rs) a.fullness;
          charge = k.charge ∙ ap (λ x. last (λ r t. charge_of r) x rs) charged;
          to_full =
              k.to_full
              ∙ ap
                  (λ x.
                    last (λ r t. F.as_i64 (F.round (F.sub r.level_cm cfg.calibration.full_dist))) x
                      rs)
                  a.to_full;
          read_at = k.read_at ∙ ap (λ x. last (λ r t. t) x rs) a.read_at;
          id = k.id ∙ ap (λ x. last (λ r t. cfg.sensor_id) x rs) a.identity.0;
          name = k.name ∙ ap (λ x. last (λ r t. cfg.sensor_name) x rs) a.identity.1;
          from = k.from ∙ ap (λ x. last (λ r t. cfg.state.from) x rs) a.identity.2;
        },
      )
