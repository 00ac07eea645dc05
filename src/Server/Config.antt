-- ===== src/Server/Config.antt =====
-- aquilo-server/src/config.rs. `ConfigFile` is what the TOML text holds, with the fields left out
-- that have a default; `resolve` is what the `#[serde(default)]` attributes make of it.
use mathlib.Core.Option
use aquilo_offline.Base.{ℕ, ℤ, pos, F64, tenths, Option, some, Str, codes, [], unwrap_or, ◌>>=◌}
use aquilo_offline.Core.Calibration.{
  Calibration, default_full_dist, default_empty_dist, default_calibration,
}

pub record BrokerSettings : Type 0 where
  pub host : Str
  pub port : ℕ
  pub username : Str
  pub password : Str

pub record StateSeed (R : Type 0) : Type 0 where
  pub lvl : R
  pub pct : ℤ
  pub bat : ℤ
  pub days_left : ℤ
  pub lvl_to_full : ℤ
  pub lst_empty : Str
  pub from : Str

pub record Config (R : Type 0) : Type 0 where
  pub receiver_id : Str
  pub sensor_id : Str
  pub mqtt_user : Str
  pub mqtt_pass : Str
  pub firmware_version : Str
  pub sensor_name : Str
  pub radar_skip : ℤ
  pub radar_repeat : ℤ
  pub bind_addr : Str
  pub listen_port : ℕ
  pub ping_interval_secs : ℕ
  pub data_dir : Str
  pub history_max_len : ℕ
  pub pump_out_drop_pct : ℤ
  pub calibration : Calibration R
  pub broker : Option BrokerSettings
  pub state : StateSeed R

pub record BrokerFile : Type 0 where
  pub host : Str
  pub port : Option ℕ
  pub username : Str
  pub password : Str

pub record SeedFile (R : Type 0) : Type 0 where
  pub lvl : Option R
  pub pct : Option ℤ
  pub bat : Option ℤ
  pub days_left : Option ℤ
  pub lvl_to_full : Option ℤ
  pub lst_empty : Option Str
  pub from : Option Str

pub record CalibrationFile (R : Type 0) : Type 0 where
  pub full_dist : Option R
  pub empty_dist : Option R

pub record ConfigFile (R : Type 0) : Type 0 where
  pub receiver_id : Str
  pub sensor_id : Str
  pub mqtt_user : Str
  pub mqtt_pass : Str
  pub firmware_version : Str
  pub sensor_name : Str
  pub radar_skip : Option ℤ
  pub radar_repeat : Option ℤ
  pub bind_addr : Option Str
  pub listen_port : Option ℕ
  pub ping_interval_secs : Option ℕ
  pub data_dir : Option Str
  pub history_max_len : Option ℕ
  pub pump_out_drop_pct : Option ℤ
  pub calibration : Option (CalibrationFile R)
  pub broker : Option BrokerFile
  pub state : Option (SeedFile R)

abbrev default_listen_port : ℕ
default_listen_port = 1883

unfoldable pub resolve_broker : BrokerFile → BrokerSettings
resolve_broker b = record {
  host = b.host;
  port = unwrap_or b.port default_listen_port;
  username = b.username;
  password = b.password;
}

module _ {R : Type 0} (F : F64 R) where
  -- `StateSeed::default`
  unfoldable pub default_seed : StateSeed R
  default_seed = record {
    lvl = tenths F (pos 1502);
    pct = pos 20;
    bat = pos 83;
    days_left = pos 0;
    lvl_to_full = pos 110;
    lst_empty = [];
    from = codes "node-4";
  }

  unfoldable pub resolve_seed : SeedFile R → StateSeed R
  resolve_seed s = record {
    lvl = unwrap_or s.lvl (tenths F (pos 1502));
    pct = unwrap_or s.pct (pos 20);
    bat = unwrap_or s.bat (pos 83);
    days_left = unwrap_or s.days_left (pos 0);
    lvl_to_full = unwrap_or s.lvl_to_full (pos 110);
    lst_empty = unwrap_or s.lst_empty [];
    from = unwrap_or s.from (codes "node-4");
  }

  unfoldable pub resolve_calibration : CalibrationFile R → Calibration R
  resolve_calibration c = record {
    full_dist = unwrap_or c.full_dist (default_full_dist F);
    empty_dist = unwrap_or c.empty_dist (default_empty_dist F);
  }

  unfoldable pub resolve : ConfigFile R → Config R
  unfolding resolve_calibration resolve_seed resolve_broker default_seed
  resolve c = record {
    receiver_id = c.receiver_id;
    sensor_id = c.sensor_id;
    mqtt_user = c.mqtt_user;
    mqtt_pass = c.mqtt_pass;
    firmware_version = c.firmware_version;
    sensor_name = c.sensor_name;
    radar_skip = unwrap_or c.radar_skip (pos 9);
    radar_repeat = unwrap_or c.radar_repeat (pos 9);
    bind_addr = unwrap_or c.bind_addr (codes "0.0.0.0");
    listen_port = unwrap_or c.listen_port default_listen_port;
    ping_interval_secs = unwrap_or c.ping_interval_secs 1200;
    data_dir = unwrap_or c.data_dir (codes "/data");
    history_max_len = unwrap_or c.history_max_len 500;
    pump_out_drop_pct = unwrap_or c.pump_out_drop_pct (pos 25);
    calibration = unwrap_or (Option.map resolve_calibration c.calibration) (default_calibration F);
    broker = Option.map resolve_broker c.broker;
    state = unwrap_or (Option.map resolve_seed c.state) default_seed;
  }

  -- `Config::load`, over a file system that gives a file's text and a TOML decoder.
  unfoldable pub load_config :
      (Str → Option Str) → (Str → Option (ConfigFile R)) → Str → Option (Config R)
  unfolding resolve
  load_config read_to_string from_str path = do
    text ← read_to_string path
    file ← from_str text
    some (resolve file)
