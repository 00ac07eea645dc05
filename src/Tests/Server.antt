-- ===== src/Tests/Server.antt =====
-- The unit tests of server.rs.
use aquilo_offline.Core.Calibration.{lvl_to_full}
use aquilo_offline.Core.Battery.{interpolate, last_point, windows_loop}
use aquilo_offline.Core.Calibration.{pct}
use aquilo_offline.Core.History.{is_pump_out}
use aquilo_offline.Core.Battery.{percent}
use aquilo_offline.Core.Reading.{parse_raw}
use aquilo_offline.Base.{
  ◌≡◌, ◌≢◌, refl, ap, arith, ℤ, pos, pos_part, F64, tenths, Option, none, some, List, [], ◌∷◌, ◌++◌,
  Bytes, Str, codes, true, bytes_eq, ends_with, length,
}
use aquilo_offline.Base.Decimal.{show_i64, parse_i64}
use aquilo_offline.Base.Json.{Json}
use aquilo_offline.Core.Battery.{default_points}
use aquilo_offline.Core.Calibration.{default_calibration}
use aquilo_offline.Core.Reading.{Reading, ReadPayload, Parsed, ok, parse_reading}
use aquilo_offline.Core.State.{SensorState, compute, to_json}
use aquilo_offline.Examples.Toy.{hundredths, no_files, codec}
use aquilo_offline.Server.Config.{Config}
use aquilo_offline.Server.Runtime.{
  PersistedState, Runtime, statics, seed_runtime, load_runtime, apply_reading,
}
use aquilo_offline.Store.{
  Files, Codec, no_fault, in_dir, new_store, join, replace, put, load, save, file_store,
}
use aquilo_offline.Tests.Readings.{no_fields}
use aquilo_offline.Tests.Values.{values, decoder}

abbrev payload : ℤ → Bytes
payload read1 =
    codes "{\"sensor\":\"ae5058\",\"read1\":" ++ show_i64 read1 ++ codes ",\"battery\":\"3770\"}"

module _ {R : Type 0} (F : F64 R) where
  abbrev cfg : Str → Config R
  cfg data_dir = record {
    receiver_id = codes "ae83fc";
    sensor_id = codes "ae5058";
    mqtt_user = codes "ae83fc";
    mqtt_pass = codes "48007129";
    firmware_version = codes "1.7.1.9_sh_en";
    sensor_name = codes "ae5058";
    radar_skip = pos 9;
    radar_repeat = pos 9;
    bind_addr = codes "127.0.0.1";
    listen_port = 1;
    ping_interval_secs = 1;
    data_dir = data_dir;
    history_max_len = 500;
    pump_out_drop_pct = pos 25;
    calibration = default_calibration F;
    broker = none;
    state = record {
      lvl = tenths F (pos 1502);
      pct = pos 20;
      bat = pos 83;
      days_left = pos 51;
      lvl_to_full = pos 110;
      lst_empty = codes "2026-05-30T00:17:19+02:00";
      from = codes "node-4";
    };
  }

  module _ (decode : Bytes → Option ReadPayload) where
    abbrev reading : ℤ → Parsed (Reading R)
    reading read1 = parse_reading F decode (payload read1)

    abbrev persisted : SensorState R → PersistedState R
    persisted prior = record {
      history =
          (record {
            ts = codes "2026-06-09T12:00:00+02:00";
            lvl = tenths F (pos 1528);
            bat = pos 83;
          })
          ∷ [];
      lst_empty = codes "2026-06-01T00:00:00+02:00";
      last_state = some prior;
      calibration = (cfg []).calibration;
    }

    abbrev Prior : Str → SensorState R → Type 0
    Prior dir prior =
        (r : Reading R) × (reading (pos 15280) ≡ ok r)
        × (compute F r (cfg dir).calibration default_points
              (statics (cfg dir) (codes "2026-06-01T00:00:00+02:00") (pos 7))
              (codes "2026-06-09T12:00:00+02:00")
            ≡ some prior)

    -- The clock's reading at the start is `now`.
    abbrev RestartReseedsStateFromTheStoreNotTheConfigSeed :
        {V : Type 0} → Json V R → Codec R → Files → Str → Str → SensorState R → Type 0
    RestartReseedsStateFromTheStoreNotTheConfigSeed {V} J C fs dir now prior =
        let store = in_dir (cfg dir).data_dir in
        let saved = save C store no_fault fs (persisted prior) in
        let rt = load_runtime (file_store C store no_fault) (cfg dir) saved.0 now in
        Prior dir prior
        × (saved.1 ≡ true)
        × (to_json J rt.current ≡ to_json J prior)
        × (rt.current.lvl ≡ tenths F (pos 1528))
        × (rt.current.lvl ≢ (cfg dir).state.lvl)
        × (rt.lst_empty ≡ codes "2026-06-01T00:00:00+02:00")
        × (length rt.history ≡ 1)

    abbrev AReadingSequenceWithAPumpOutUpdatesLstEmpty : (Str → Option ℤ) → Str → Str → Type 0
    AReadingSequenceWithAPumpOutUpdatesLstEmpty parse_ts dir now =
        let c = cfg dir in
        let rt = seed_runtime c now in
        (full : Reading R) × (empty : Reading R) × (rt1 : Runtime R) × (rt2 : Runtime R) × (reading
            (pos 5000)
          ≡ ok full)
        × (reading (pos 17000) ≡ ok empty)
        × (apply_reading F parse_ts rt c default_points full (codes "2026-06-08T00:00:00+02:00")
            ≡ some rt1)
        × (rt1.lst_empty ≡ rt.lst_empty)
        × (apply_reading F parse_ts rt1 c default_points empty (codes "2026-06-09T00:00:00+02:00")
            ≡ some rt2)
        × (rt2.lst_empty ≡ codes "2026-06-09T00:00:00+02:00")
        × (rt2.current.lst_empty ≡ codes "2026-06-09T00:00:00+02:00")

abbrev fields : ℤ → Bytes × ReadPayload
fields read1 = (
  payload read1,
  record no_fields {
    sensor = some (codes "ae5058");
    read1 = some read1;
    battery = some (codes "3770");
  },
)

abbrev known : List (Bytes × ReadPayload)
known = fields (pos 15280) ∷ fields (pos 5000) ∷ fields (pos 17000) ∷ []

abbrev prior : SensorState ℤ
prior = record {
  id = codes "ae5058";
  name = codes "ae5058";
  lvl = pos 15280;
  pct = pos 18;
  bat = pos 83;
  lst_read = codes "2026-06-09T12:00:00+02:00";
  lst_empty = codes "2026-06-01T00:00:00+02:00";
  days_left = pos 7;
  lvl_to_full = pos 113;
  from = codes "node-4";
}

levels_differ : pos 15280 ≢ pos 15020
levels_differ e = omega (arith, ap pos_part e)

prior_computed : Prior hundredths (decoder known) (codes "d") prior
unfolding parse_reading compute statics bytes_eq show_i64 parse_raw parse_i64 percent default_points
    pct last_point lvl_to_full default_calibration windows_loop interpolate
prior_computed = (_, refl, refl)

restart_reseeds_state_from_the_store_not_the_config_seed :
    RestartReseedsStateFromTheStoreNotTheConfigSeed hundredths
      (decoder known)
      (values (λ b. none))
      (codec (persisted hundredths (decoder known) prior))
      no_files
      (codes "d")
      (codes "now")
      prior
unfolding load_runtime load save in_dir new_store join ends_with replace put bytes_eq
restart_reseeds_state_from_the_store_not_the_config_seed =
    (prior_computed, refl, refl, refl, levels_differ, refl, refl)

a_reading_sequence_with_a_pump_out_updates_lst_empty :
    AReadingSequenceWithAPumpOutUpdatesLstEmpty hundredths
      (decoder known)
      (λ ts. none)
      (codes "d")
      (codes "now")
unfolding apply_reading parse_reading bytes_eq show_i64 parse_raw parse_i64 percent default_points
    compute seed_runtime is_pump_out pct default_calibration
a_reading_sequence_with_a_pump_out_updates_lst_empty =
    (_, _, _, _, refl, refl, refl, refl, refl, refl, refl)
