-- ===== src/Tests/Onboarding.antt =====
-- The unit tests of onboard.rs, but for the one that writes files.
use aquilo_offline.Core.Battery.{interpolate, last_point, windows_loop}
use aquilo_offline.Core.Calibration.{lvl_to_full, pct}
use aquilo_offline.Core.Battery.{default_points, percent}
use aquilo_offline.Base.Decimal.{parse_i64}
use aquilo_offline.Core.Reading.{
  all_integers, non_empty, parse_frame, parse_raw, parse_reading, split,
}
use aquilo_offline.Core.Calibration.{default_calibration, default_empty_dist, default_full_dist}
use aquilo_offline.Base.Decimal.{show_i64}
use aquilo_offline.Base.White.{split_whitespace}
use aquilo_offline.Base.{from_utf8}
use aquilo_offline.Server.Firmware.{firmware_from_log}
use aquilo_offline.Base.{
  ◌≡◌, refl, ℤ, pos, F64, tenths, whole, Option, some, List, [], ◌∷◌, Bytes, Str, codes, true,
  false, bytes_eq, unwrap_or,
}
use aquilo_offline.Base.Json.{Json}
use aquilo_offline.Core.Reading.{ReadPayload}
use aquilo_offline.Examples.Toy.{hundredths}
use aquilo_offline.Onboard.Facts.{
  Facts, no_facts, apply_device_connect, apply_device_publish, apply_cloud_publish, is_complete,
}
use aquilo_offline.Onboard.Output.{OnboardOptions, render_config}
use aquilo_offline.Server.Config.{ConfigFile, resolve}
use aquilo_offline.Tests.Readings.{no_fields}
use aquilo_offline.Tests.States.{minimal}
use aquilo_offline.Tests.Values.{
  Value, text, number, fraction, array_of, object_of, values, decoder,
}
use aquilo_offline.Wire.Decode.{Connect}

abbrev opts : OnboardOptions
opts = record {
  bind_addr = codes "127.0.0.1";
  listen_port = 1883;
  out_config = codes "/tmp/unused.toml";
  data_dir = codes "data";
}

abbrev pub connected : Connect
connected = record {
  client_id = codes "CieczSensorae83fc";
  username = some (codes "ae83fc");
  password = some (codes "48007129");
}

abbrev radar : Bytes
radar = codes "{\"sensor\":\"ae5058\",\"skip\":9,\"repeat\":9,\"from\":\"ovh4-docker\"}"

abbrev cloud_state : Bytes
cloud_state =
    codes
      "{\"sensors\":[{\"id\":\"ae5058\",\"lvl\":150.2,\"pct\":20,\"bat\":83,\"lstRead\":\"x\",\"lstEmpty\":\"2026-05-30T00:17:19+02:00\",\"daysLeft\":51,\"name\":\"ae5058\",\"lvlToFull\":110}],\"from\":\"node-4\"}"

abbrev json_log : Bytes
json_log = codes "{\"v\":\"1.7.1.9_sh_en\",\"mac\":\"D8:BC:38:AE:83:FC\"}"

abbrev read : Bytes
read =
    codes
      "{\"sensor\":\"ae5058\",\"read1\":15280,\"battery\":\"3770\",\"raw\":\"_e23_ae5058_1528_3770_59_0_73045_72976_1\"}"

module _ {V R : Type 0} (F : F64 R) (J : Json V R) (decode : Bytes → Option ReadPayload) where
  abbrev learned : Facts R
  learned =
      let f1 = apply_device_connect no_facts connected in
      let f2 =
        apply_device_publish F J decode f1 (codes "/users/ae83fc/sensors/ae83fc/log")
          (codes "1.7.1.9_sh_en D8:BC:38:AE:83:FC") (codes "2026-06-11T12:00:00+02:00") in
      let f3 =
        apply_cloud_publish F J decode f2 (codes "/users/ae83fc/receivers/ae83fc/radarParams")
          radar in
      apply_cloud_publish F J decode f3 (codes "/users/ae83fc/state") cloud_state

  -- `from_str` is the TOML decoder.
  abbrev LearnFactsFromConnectAndCloudStateYieldALoadableConfig :
      (Str → Option (ConfigFile R)) → Type 0
  LearnFactsFromConnectAndCloudStateYieldALoadableConfig from_str =
      (rendered : Str) × (file : ConfigFile R) × (is_complete learned ≡ true)
      × (render_config F learned opts ≡ some rendered)
      × (from_str rendered ≡ some file)
      × ((resolve F file).receiver_id ≡ codes "ae83fc")
      × ((resolve F file).sensor_id ≡ codes "ae5058")
      × ((resolve F file).mqtt_user ≡ codes "ae83fc")
      × ((resolve F file).mqtt_pass ≡ codes "48007129")
      × ((resolve F file).firmware_version ≡ codes "1.7.1.9_sh_en")
      × ((resolve F file).state.lvl ≡ tenths F (pos 1502))
      × ((resolve F file).state.pct ≡ pos 20)
      × ((resolve F file).state.days_left ≡ pos 51)
      × ((resolve F file).state.lst_empty ≡ codes "2026-05-30T00:17:19+02:00")
      × ((resolve F file).calibration.full_dist ≡ whole F (pos 40))

  abbrev announced : Facts R
  announced =
      apply_device_publish F J decode (apply_device_connect no_facts connected)
        (codes "/users/ae83fc/sensors/ae83fc/log") json_log (codes "2026-06-11T12:00:00+02:00")

  abbrev observed : Facts R
  observed =
      apply_device_publish F J decode announced (codes "/users/ae83fc/sensors/ae83fc/read") read
        (codes "2026-06-11T12:01:00+02:00")

  abbrev ObserveFactsReconstructIdentityFromDeviceOnly : (Str → Option (ConfigFile R)) → Type 0
  ObserveFactsReconstructIdentityFromDeviceOnly from_str =
      (rendered : Str) × (file : ConfigFile R) × ((apply_device_connect {R = R} no_facts
          connected).receiver_id
        ≡ some (codes "ae83fc"))
      × (is_complete announced ≡ false)
      × (is_complete observed ≡ true)
      × (observed.sensor_id ≡ some (codes "ae5058"))
      × (render_config F observed opts ≡ some rendered)
      × (from_str rendered ≡ some file)
      × ((resolve F file).firmware_version ≡ codes "1.7.1.9_sh_en")
      × ((resolve F file).sensor_id ≡ codes "ae5058")
      × ((resolve F file).state.lvl ≡ tenths F (pos 1528))
      × ((resolve F file).state.pct ≡ pos 18)
      × ((resolve F file).state.lvl_to_full ≡ pos 113)
      × ((resolve F file).state.lst_empty ≡ codes "2026-06-11T12:01:00+02:00")

  abbrev FirmwareComesFromTheDeviceNotTheCloudVersion : Type 0
  FirmwareComesFromTheDeviceNotTheCloudVersion =
      (apply_cloud_publish F J decode
        (apply_device_publish F J decode no_facts (codes "/x/log") (codes "7.7.7_dev AA:BB")
          (codes "t"))
        (codes "/version/czujnik_szamba/ae83fc") (codes "9.9.9_cloud")).firmware
      ≡ some (codes "7.7.7_dev")

abbrev known : List (Bytes × ReadPayload)
known =
    (
      read,
      record no_fields {
        sensor = some (codes "ae5058");
        read1 = some (pos 15280);
        battery = some (codes "3770");
        raw = some (codes "_e23_ae5058_1528_3770_59_0_73045_72976_1");
      },
    )
    ∷ []

abbrev json_values : List (Bytes × Value)
json_values =
    (
      radar,
      object_of (
          (codes "sensor", text (codes "ae5058"))
          ∷ (codes "skip", number (pos 9))
          ∷ (codes "repeat", number (pos 9))
          ∷ (codes "from", text (codes "ovh4-docker"))
          ∷ []),
    )
    ∷ (
      cloud_state,
      object_of (
          (
            codes "sensors",
            array_of (
                object_of (
                  (codes "id", text (codes "ae5058"))
                  ∷ (codes "lvl", fraction (pos 15020))
                  ∷ (codes "pct", number (pos 20))
                  ∷ (codes "bat", number (pos 83))
                  ∷ (codes "lstRead", text (codes "x"))
                  ∷ (codes "lstEmpty", text (codes "2026-05-30T00:17:19+02:00"))
                  ∷ (codes "daysLeft", number (pos 51))
                  ∷ (codes "name", text (codes "ae5058"))
                  ∷ (codes "lvlToFull", number (pos 110))
                  ∷ [])
                ∷ []),
          )
          ∷ (codes "from", text (codes "node-4"))
          ∷ []),
    )
    ∷ (
      json_log,
      object_of (
          (codes "v", text (codes "1.7.1.9_sh_en"))
          ∷ (codes "mac", text (codes "D8:BC:38:AE:83:FC"))
          ∷ []),
    )
    ∷ []

firmware_comes_from_the_device_not_the_cloud_version :
    FirmwareComesFromTheDeviceNotTheCloudVersion hundredths
      (values (decoder json_values))
      (decoder known)
unfolding apply_device_publish apply_cloud_publish no_facts firmware_from_log from_utf8
    split_whitespace
firmware_comes_from_the_device_not_the_cloud_version = refl

-- What the TOML decoder gives for the text of the first test, and for that of the second.
abbrev learned_file : ConfigFile ℤ
learned_file = record (minimal (codes "ae5058")) {
  state = some (record {
    lvl = some (pos 15020);
    pct = some (pos 20);
    bat = some (pos 83);
    days_left = some (pos 51);
    lvl_to_full = some (pos 110);
    lst_empty = some (codes "2026-05-30T00:17:19+02:00");
    from = some (codes "node-4");
  });
}

abbrev observed_file : ConfigFile ℤ
observed_file = record (minimal (codes "ae5058")) {
  state = some (record {
    lvl = some (pos 15280);
    pct = some (pos 18);
    bat = some (pos 83);
    days_left = some (pos 0);
    lvl_to_full = some (pos 113);
    lst_empty = some (codes "2026-06-11T12:01:00+02:00");
    from = some (codes "node-4");
  });
}

abbrev config_of : Facts ℤ → Str
config_of f = unwrap_or (render_config hundredths f opts) []

abbrev files : List (Str × ConfigFile ℤ)
files =
    (config_of (learned hundredths (values (decoder json_values)) (decoder known)), learned_file)
    ∷ (
      config_of (observed hundredths (values (decoder json_values)) (decoder known)),
      observed_file,
    )
    ∷ []

learn_facts_from_connect_and_cloud_state_yield_a_loadable_config :
    LearnFactsFromConnectAndCloudStateYieldALoadableConfig hundredths
      (values (decoder json_values))
      (decoder known)
      (decoder files)
unfolding apply_device_publish apply_cloud_publish apply_device_connect no_facts is_complete
    render_config resolve bytes_eq firmware_from_log from_utf8 split_whitespace show_i64
    default_full_dist default_empty_dist default_calibration
learn_facts_from_connect_and_cloud_state_yield_a_loadable_config =
    (_, _, refl, refl, refl, refl, refl, refl, refl, refl, refl, refl, refl, refl, refl)

observe_facts_reconstruct_identity_from_device_only :
    ObserveFactsReconstructIdentityFromDeviceOnly hundredths
      (values (decoder json_values))
      (decoder known)
      (decoder files)
unfolding apply_device_publish apply_device_connect no_facts is_complete render_config resolve
    bytes_eq firmware_from_log parse_reading parse_raw parse_frame non_empty split parse_i64
    all_integers percent default_points from_utf8 split_whitespace show_i64 default_full_dist
    default_empty_dist pct default_calibration lvl_to_full apply_cloud_publish last_point
    windows_loop interpolate
observe_facts_reconstruct_identity_from_device_only =
    (_, _, refl, refl, refl, refl, refl, refl, refl, refl, refl, refl, refl, refl)
