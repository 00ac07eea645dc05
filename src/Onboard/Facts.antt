-- ===== src/Onboard/Facts.antt =====
-- `Facts` of onboard.rs: identity gathered packet by packet.
use mathlib.Core.Option
use aquilo_offline.Base.{
  ℤ, pos, F64, Bool, ◌&&◌, Option, none, some, List, [], ◌∷◌, Bytes, Str, codes, starts_with,
  ends_with, strip_prefix, from_utf8, if◌then◌else◌, or_else, unwrap_or, is_some, ◌>>=◌,
}
use aquilo_offline.Base.Json.{Json}
use aquilo_offline.Base.White.{trim}
use aquilo_offline.Core.Battery.{default_points, percent}
use aquilo_offline.Core.Calibration.{default_calibration, pct, lvl_to_full}
use aquilo_offline.Core.Reading.{Reading, ReadPayload, Parsed, ok, err, parse_reading}
use aquilo_offline.Server.Firmware.{firmware_from_log}
use aquilo_offline.Wire.Decode.{Connect}

pub record Seed (R : Type 0) : Type 0 where
  pub lvl : R
  pub pct : ℤ
  pub bat : ℤ
  pub days_left : ℤ
  pub lvl_to_full : ℤ
  pub lst_empty : Str
  pub from : Str

pub record Facts (R : Type 0) : Type 0 where
  pub receiver_id : Option Str
  pub client_id : Option Str
  pub mqtt_user : Option Str
  pub mqtt_pass : Option Str
  pub firmware : Option Str
  pub sensor_id : Option Str
  pub sensor_name : Option Str
  pub radar_skip : Option ℤ
  pub radar_repeat : Option ℤ
  pub seed : Option (Seed R)

unfoldable pub client_id_prefix : Str
client_id_prefix = codes "CieczSensor"

-- The name of a fact that is not there yet, before the names of others.
abbrev absent {ℓ} : {A : Type ℓ} → Option A → Str → List Str → List Str
absent none name rest = name ∷ rest
absent (some a) name rest = rest

module _ {R : Type 0} where
  -- `Facts::default()`
  unfoldable pub no_facts : Facts R
  no_facts = record {
    receiver_id = none;
    client_id = none;
    mqtt_user = none;
    mqtt_pass = none;
    firmware = none;
    sensor_id = none;
    sensor_name = none;
    radar_skip = none;
    radar_repeat = none;
    seed = none;
  }

  unfoldable pub apply_device_connect : Facts R → Connect → Facts R
  unfolding client_id_prefix strip_prefix
  apply_device_connect f c = record f {
    client_id = or_else f.client_id (some c.client_id);
    mqtt_user = or_else f.mqtt_user c.username;
    mqtt_pass = or_else f.mqtt_pass c.password;
    receiver_id =
        or_else (or_else f.receiver_id c.username)
          (some (unwrap_or (strip_prefix c.client_id client_id_prefix) c.client_id));
  }

  unfoldable pub is_complete : Facts R → Bool
  is_complete f =
      is_some f.receiver_id
      && is_some f.mqtt_user
      && is_some f.mqtt_pass
      && is_some f.firmware
      && is_some f.sensor_id
      && is_some f.seed

  unfoldable pub missing : Facts R → List Str
  missing f = absent f.receiver_id (codes "receiver_id") (
      absent f.mqtt_user (codes "mqtt_user") (
        absent f.mqtt_pass (codes "mqtt_pass") (
          absent f.firmware (codes "firmware")
            (absent f.sensor_id (codes "sensor_id") (absent f.seed (codes "state") [])))))

module _ {V R : Type 0} (F : F64 R) (J : Json V R) (decode : Bytes → Option ReadPayload) where
  open J use {from_slice, get, at, field, as_str, as_i64, as_f64}

  -- The seed of a reading. The default curve is not empty, so that there always is one.
  unfoldable pub seed_of_reading : Reading R → Str → Option (Seed R)
  seed_of_reading reading now =
      Option.map
        (λ bat. record {
          lvl = reading.level_cm;
          pct = pct F (default_calibration F) reading.level_cm;
          bat = bat;
          days_left = pos 0;
          lvl_to_full = lvl_to_full F (default_calibration F) reading.level_cm;
          lst_empty = now;
          from = codes "node-4";
        })
        (percent F default_points reading.battery_mv)

  abbrev pub apply_reading : Facts R → Parsed (Reading R) → Str → Facts R
  apply_reading f (err e) now = f
  apply_reading f (ok reading) now = record f {
    sensor_id = or_else f.sensor_id (some reading.sensor);
    sensor_name = or_else f.sensor_name (some reading.sensor);
    seed = or_else f.seed (seed_of_reading reading now);
  }

  unfoldable pub apply_device_publish : Facts R → Str → Bytes → Str → Facts R
  unfolding seed_of_reading ends_with
  apply_device_publish f topic payload now =
      if ends_with topic (codes "/log")
      then record f { firmware = or_else f.firmware (firmware_from_log J payload) }
      else if ends_with topic (codes "/read")
      then apply_reading f (parse_reading F decode payload) now
      else f

  -- The seed of a `/state` that the cloud sent.
  unfoldable pub seed_of_state : V → V → Seed R
  seed_of_state v s = record {
    lvl = unwrap_or (as_f64 (field s (codes "lvl"))) (F.of_i64 (pos 0));
    pct = unwrap_or (as_i64 (field s (codes "pct"))) (pos 0);
    bat = unwrap_or (as_i64 (field s (codes "bat"))) (pos 0);
    days_left = unwrap_or (as_i64 (field s (codes "daysLeft"))) (pos 0);
    lvl_to_full = unwrap_or (as_i64 (field s (codes "lvlToFull"))) (pos 0);
    lst_empty = unwrap_or (as_str (field s (codes "lstEmpty"))) [];
    from = unwrap_or (as_str (field v (codes "from"))) (codes "node-4");
  }

  abbrev pub apply_sensor : Facts R → V → Option V → Facts R
  apply_sensor f v none = f
  apply_sensor f v (some s) = record f {
    sensor_id = or_else f.sensor_id (as_str (field s (codes "id")));
    sensor_name = or_else f.sensor_name (as_str (field s (codes "name")));
    seed = or_else f.seed (some (seed_of_state v s));
  }

  abbrev pub apply_state_value : Facts R → Option V → Facts R
  apply_state_value f none = f
  apply_state_value f (some v) = apply_sensor f v (at (field v (codes "sensors")) 0)

  unfoldable pub apply_cloud_state : Facts R → Bytes → Facts R
  unfolding seed_of_state
  apply_cloud_state f payload = apply_state_value f (from_slice payload)

  abbrev non_blank : Str → Option Str
  non_blank [] = none
  non_blank (c ∷ s) = some (c ∷ s)

  abbrev pub apply_radar_value : Facts R → Option V → Facts R
  apply_radar_value f none = f
  apply_radar_value f (some v) = record f {
    sensor_id = or_else f.sensor_id (get v (codes "sensor") >>= as_str >>= non_blank);
    radar_skip = or_else f.radar_skip (get v (codes "skip") >>= as_i64);
    radar_repeat = or_else f.radar_repeat (get v (codes "repeat") >>= as_i64);
  }

  unfoldable pub apply_cloud_publish : Facts R → Str → Bytes → Facts R
  unfolding apply_cloud_state starts_with ends_with
  apply_cloud_publish f topic payload =
      if starts_with topic (codes "/version/")
      then record f {
        firmware = or_else f.firmware (from_utf8 payload >>= λ s. non_blank (trim s));
      }
      else if ends_with topic (codes "/state")
      then apply_cloud_state f payload
      else if ends_with topic (codes "/radarParams")
      then apply_radar_value f (from_slice payload)
      else f
