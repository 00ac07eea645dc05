-- ===== src/Examples/Gathering.antt =====
-- A device that announces itself to the stand-in broker, with the stand-ins of Toy.
use aquilo_offline.Base.{
  ℤ, pos, ◌≡◌, refl, false, some, none, codes, Str, from_utf8, scan, scan_byte, contains,
}
use aquilo_offline.Base.White.{split_whitespace}
use aquilo_offline.Base.Decimal.{parse_i64}
use aquilo_offline.Core.Reading.{Reading, ok, parse_reading, parse_raw}
use aquilo_offline.Examples.Toy.{hundredths, texts, decode}
use aquilo_offline.Server.Firmware.{
  firmware_from_log, find_version, json_firmware, find_key, firmware_keys,
}
use aquilo_offline.Wire.Decode.{Connect, Publish}

abbrev pub device : Connect
device = record {
  client_id = codes "CieczSensorr1";
  username = some (codes "r1");
  password = some (codes "p");
}

abbrev pub message : Str → Str → Publish
message topic payload = record {
  topic = topic;
  payload = payload;
  qos = 0;
  retain = false;
  packet_id = none;
}

pub log_line : firmware_from_log texts (codes "1.2") ≡ some (codes "1.2")
unfolding firmware_from_log json_firmware find_key firmware_keys find_version from_utf8 scan
    scan_byte split_whitespace contains
log_line = refl

abbrev pub reading : Reading ℤ
reading = record {
  sensor = codes "n4";
  version = none;
  level_cm = pos 1502;
  battery_mv = pos 3770;
  read_no = none;
  last_sent = none;
  amp1 = none;
  temp = none;
  raw = none;
}

pub measured : parse_reading hundredths decode (codes "r") ≡ ok reading
unfolding parse_reading parse_raw parse_i64
measured = refl
