-- ===== src/Tests/Outputs.antt =====
-- The unit test of onboard.rs that writes the config and the state file.
use aquilo_offline.Core.Battery.{default_points, percent}
use aquilo_offline.Base.White.{split_whitespace}
use aquilo_offline.Base.{from_utf8}
use aquilo_offline.Server.Firmware.{firmware_from_log}
use aquilo_offline.Base.Decimal.{parse_i64}
use aquilo_offline.Core.Reading.{parse_raw, parse_reading}
use aquilo_offline.Base.{
  ◌≡◌, refl, ℤ, pos, F64, tenths, Option, none, some, List, [], ◌∷◌, ◌++◌, Bytes, Str, codes, true,
  bytes_eq,
}
use aquilo_offline.Base.Json.{Json}
use aquilo_offline.Core.Reading.{ReadPayload}
use aquilo_offline.Core.State.{SensorState}
use aquilo_offline.Examples.Toy.{hundredths, no_files, codec}
use aquilo_offline.Onboard.Facts.{Facts, no_facts, apply_device_connect, apply_device_publish}
use aquilo_offline.Onboard.Handover.{disk_of}
use aquilo_offline.Onboard.Output.{
  OnboardOptions, Complete, complete_facts, initial_state, write_outputs,
}
use aquilo_offline.Server.Config.{Config, ConfigFile, load_config}
use aquilo_offline.Server.Runtime.{PersistedState, found}
use aquilo_offline.Store.{Entry, holds, missing, unreadable, Files, Codec, no_fault, in_dir, load}
use aquilo_offline.Tests.Onboarding.{connected}
use aquilo_offline.Tests.Readings.{no_fields}
use aquilo_offline.Tests.States.{minimal}
use aquilo_offline.Tests.Values.{values, decoder}

abbrev read : Bytes
read = codes "{\"sensor\":\"ae5058\",\"read1\":15280,\"battery\":\"3770\"}"

abbrev opts : Str → OnboardOptions
opts dir = record {
  bind_addr = codes "127.0.0.1";
  listen_port = 1883;
  out_config = dir ++ codes "/config.toml";
  data_dir = dir;
}

-- `fs::read_to_string`, for files that are text.
abbrev text_of : Entry → Option Str
text_of missing = none
text_of unreadable = none
text_of (holds bytes) = some bytes

module _ {V R : Type 0} (F : F64 R) (J : Json V R) (decode : Bytes → Option ReadPayload) where
  abbrev gathered : Facts R
  gathered =
      let f1 = apply_device_connect no_facts connected in
      let f2 =
        apply_device_publish F J decode f1 (codes "/x/log") (codes "1.7.1.9_sh_en") (codes "t") in
      apply_device_publish F J decode f2 (codes "/x/read") read (codes "2026-06-11T12:01:00+02:00")

  abbrev WriteOutputsProducesAStateFileServeCanLoad :
      Codec R → (Str → Option Str) → (Str → Option (ConfigFile R)) → Files → Str → Type 0
  WriteOutputsProducesAStateFileServeCanLoad C parent from_str fs dir =
      let o = opts dir in
      let written =
        write_outputs F (disk_of C parent none no_fault) fs gathered o
          (codes "2026-06-11T12:02:00+02:00") in
      (loaded : Config R) × (persisted : PersistedState R) × (last : SensorState R) × (written.1
        ≡ true)
      × (load_config F (λ path. text_of (written.0 path)) from_str o.out_config ≡ some loaded)
      × (loaded.sensor_id ≡ codes "ae5058")
      × (load C (in_dir o.data_dir) written.0 ≡ found persisted)
      × (persisted.last_state ≡ some last)
      × (last.id ≡ codes "ae5058")
      × (last.lvl ≡ tenths F (pos 1528))
      × (last.lst_read ≡ codes "2026-06-11T12:02:00+02:00")

abbrev known : List (Bytes × ReadPayload)
known =
    (
      read,
      record no_fields {
        sensor = some (codes "ae5058");
        read1 = some (pos 15280);
        battery = some (codes "3770");
      },
    )
    ∷ []

abbrev facts : Facts ℤ
facts = gathered hundredths (values (λ b. none)) (decoder known)

-- The state that is written.
abbrev initial : Option (Complete ℤ) → PersistedState ℤ
initial none = record {
  history = [];
  lst_empty = [];
  last_state = none;
  calibration = record { full_dist = pos 0; empty_dist = pos 0 };
}
initial (some c) = initial_state hundredths facts c (codes "2026-06-11T12:02:00+02:00")

write_outputs_produces_a_state_file_serve_can_load :
    WriteOutputsProducesAStateFileServeCanLoad hundredths
      (values (λ b. none))
      (decoder known)
      (codec (initial (complete_facts facts)))
      (λ path. some (codes "d"))
      (λ s. some (minimal (codes "ae5058")))
      no_files
      (codes "d")
unfolding apply_device_publish apply_device_connect no_facts complete_facts initial_state
    write_outputs disk_of load_config load in_dir bytes_eq parse_reading parse_raw parse_i64
    firmware_from_log from_utf8 split_whitespace percent default_points
write_outputs_produces_a_state_file_serve_can_load =
    (_, _, _, refl, refl, refl, refl, refl, refl, refl, refl)
