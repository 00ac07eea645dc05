-- ===== src/Tests/States.antt =====
-- The unit tests of state.rs in aquilo-core, and of topics.rs and config.rs in aquilo-server.
use aquilo_offline.Core.Reading.{all_integers, non_empty, split}
use aquilo_offline.Base.{
  ◌≡◌, refl, pos, F64, tenths, whole, Option, none, some, List, [], ◌∷◌, Bytes, Str, codes,
  bytes_eq,
}
use aquilo_offline.Base.Decimal.{parse_i64}
use aquilo_offline.Base.Json.{Json}
use aquilo_offline.Core.Battery.{default_points, percent, last_point, windows_loop, interpolate}
use aquilo_offline.Core.Calibration.{default_calibration, pct, lvl_to_full}
use aquilo_offline.Core.Reading.{Reading, ReadPayload, ok, parse_reading, parse_raw, parse_frame}
use aquilo_offline.Core.State.{StaticFields, SensorState, compute, to_json}
use aquilo_offline.Examples.Toy.{hundredths}
use aquilo_offline.Server.Config.{BrokerSettings, ConfigFile, resolve}
use aquilo_offline.Server.Topics.{new_topics}
use aquilo_offline.Tests.Values.{values, decoder}
use aquilo_offline.Tests.Readings.{no_fields}

abbrev statics : StaticFields
statics = record {
  sensor_id = codes "ae5058";
  name = codes "ae5058";
  lst_empty = codes "2026-05-30T00:17:19+02:00";
  days_left = pos 51;
  from = codes "node-4";
}

abbrev captured_read : Bytes
captured_read =
    codes
      "{\"raw\":\"_e23_ae5058_1528_3770_59_0_73045_72976_1\",\"sensor\":\"ae5058\",\"read1\":15280,\"battery\":\"3770\"}"

abbrev second_read : Bytes
second_read = codes "{\"sensor\":\"ae5058\",\"read1\":15020,\"battery\":\"3770\"}"

abbrev known : List (Bytes × ReadPayload)
known =
    (
      captured_read,
      record no_fields {
        raw = some (codes "_e23_ae5058_1528_3770_59_0_73045_72976_1");
        sensor = some (codes "ae5058");
        read1 = some (pos 15280);
        battery = some (codes "3770");
      },
    )
    ∷ (
      second_read,
      record no_fields {
        sensor = some (codes "ae5058");
        read1 = some (pos 15020);
        battery = some (codes "3770");
      },
    )
    ∷ []

module _ {V R : Type 0} (F : F64 R) (J : Json V R) (decode : Bytes → Option ReadPayload) where
  abbrev ComputesStateFromACapturedRead : Type 0
  ComputesStateFromACapturedRead =
      (reading : Reading R) × (state : SensorState R) × (sensor : V) × (parse_reading F decode
          captured_read
        ≡ ok reading)
      × (compute F reading (default_calibration F) default_points statics
            (codes "2026-06-10T20:44:35+02:00")
          ≡ some state)
      × (J.at (J.field (to_json J state) (codes "sensors")) 0 ≡ some sensor)
      × (J.as_str (J.field sensor (codes "id")) ≡ some (codes "ae5058"))
      × (J.as_f64 (J.field sensor (codes "lvl")) ≡ some (tenths F (pos 1528)))
      × (J.as_i64 (J.field sensor (codes "pct")) ≡ some (pos 18))
      × (J.as_i64 (J.field sensor (codes "bat")) ≡ some (pos 83))
      × (J.as_i64 (J.field sensor (codes "lvlToFull")) ≡ some (pos 113))
      × (J.as_str (J.field sensor (codes "lstRead")) ≡ some (codes "2026-06-10T20:44:35+02:00"))
      × (J.as_str (J.field sensor (codes "lstEmpty")) ≡ some (codes "2026-05-30T00:17:19+02:00"))
      × (J.as_i64 (J.field sensor (codes "daysLeft")) ≡ some (pos 51))
      × (J.as_str (J.field sensor (codes "name")) ≡ some (codes "ae5058"))
      × (J.as_str (J.field (to_json J state) (codes "from")) ≡ some (codes "node-4"))

  abbrev ChangingCalibrationChangesDerivedValues : Type 0
  ChangingCalibrationChangesDerivedValues =
      (reading : Reading R) × (base : SensorState R) × (recal : SensorState R) × (parse_reading F
          decode second_read
        ≡ ok reading)
      × (compute F reading (default_calibration F) default_points statics (codes "t") ≡ some base)
      × (base.pct ≡ pos 20)
      × (base.lvl_to_full ≡ pos 110)
      × (compute F reading (record { full_dist = whole F (pos 30); empty_dist = whole F (pos 200) })
            default_points statics (codes "t")
          ≡ some recal)
      × (recal.pct ≡ pos 29)
      × (recal.lvl_to_full ≡ pos 120)

computes_state_from_a_captured_read :
    ComputesStateFromACapturedRead hundredths (values (λ b. none)) (decoder known)
unfolding parse_reading compute to_json bytes_eq parse_raw parse_frame non_empty split parse_i64
    all_integers percent default_points pct default_calibration last_point windows_loop interpolate
    lvl_to_full
computes_state_from_a_captured_read =
    (_, _, _, refl, refl, refl, refl, refl, refl, refl, refl, refl, refl, refl, refl, refl)

changing_calibration_changes_derived_values :
    ChangingCalibrationChangesDerivedValues hundredths (values (λ b. none)) (decoder known)
unfolding parse_reading compute bytes_eq parse_raw parse_i64 percent default_points pct
    default_calibration lvl_to_full
changing_calibration_changes_derived_values = (_, _, _, refl, refl, refl, refl, refl, refl, refl)

abbrev TemplatesFromReceiverId : Type 0
TemplatesFromReceiverId =
    let t = new_topics (codes "ae83fc") in
    (t.version ≡ codes "/version/czujnik_szamba/ae83fc")
    × (t.state ≡ codes "/users/ae83fc/state")
    × (t.radar_params ≡ codes "/users/ae83fc/receivers/ae83fc/radarParams")
    × (t.read ≡ codes "/users/ae83fc/sensors/ae83fc/read")
    × (t.log ≡ codes "/users/ae83fc/sensors/ae83fc/log")
    × (t.connection ≡ codes "/users/ae83fc/sensors/ae83fc/connection")

templates_from_receiver_id : TemplatesFromReceiverId
unfolding new_topics
templates_from_receiver_id = (refl, refl, refl, refl, refl, refl)

-- What the TOML text of the tests holds: the identity, and no table.
abbrev pub minimal : {R : Type 0} → Str → ConfigFile R
minimal name = record {
  receiver_id = codes "ae83fc";
  sensor_id = codes "ae5058";
  mqtt_user = codes "ae83fc";
  mqtt_pass = codes "48007129";
  firmware_version = codes "1.7.1.9_sh_en";
  sensor_name = name;
  radar_skip = none;
  radar_repeat = none;
  bind_addr = none;
  listen_port = none;
  ping_interval_secs = none;
  data_dir = none;
  history_max_len = none;
  pump_out_drop_pct = none;
  calibration = none;
  broker = none;
  state = none;
}

module _ {R : Type 0} (F : F64 R) where
  abbrev add_on_file : ConfigFile R
  add_on_file = record (minimal (codes "Septic tank")) {
    calibration =
        some
          (record { full_dist = some (whole F (pos 40)); empty_dist = some (whole F (pos 178)) });
    broker = some (record {
      host = codes "core-mosquitto";
      port = none;
      username = codes "addons";
      password = codes "secret";
    });
  }

  abbrev AddOnStyleConfigWithExternalBrokerLoads : Type 0
  AddOnStyleConfigWithExternalBrokerLoads =
      let cfg = resolve F add_on_file in
      (broker : BrokerSettings) × (cfg.broker ≡ some broker)
      × (broker.host ≡ codes "core-mosquitto")
      × (broker.port ≡ 1883)
      × (broker.username ≡ codes "addons")
      × (cfg.state.lvl ≡ tenths F (pos 1502))
      × (cfg.state.lst_empty ≡ [])

  abbrev ConfigWithoutBrokerSectionRunsEmbedded : Type 0
  ConfigWithoutBrokerSectionRunsEmbedded = (resolve F (minimal (codes "ae5058"))).broker ≡ none

add_on_style_config_with_external_broker_loads : AddOnStyleConfigWithExternalBrokerLoads hundredths
unfolding resolve
add_on_style_config_with_external_broker_loads = (_, refl, refl, refl, refl, refl, refl)

config_without_broker_section_runs_embedded : ConfigWithoutBrokerSectionRunsEmbedded hundredths
unfolding resolve
config_without_broker_section_runs_embedded = refl
