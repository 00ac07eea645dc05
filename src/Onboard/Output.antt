-- ===== src/Onboard/Output.antt =====
-- What onboarding writes: `render_config`, `write_outputs` and `maybe_finalize` of onboard.rs.
use mathlib.Core.List.{flatten}
use aquilo_offline.Base.{
  ℕ, pos, F64, Bool, true, false, ◌&&◌, Option, none, some, [], ◌∷◌, ◌++◌, Bytes, Str, codes,
  String, not, if◌then◌else◌, unwrap_or, ◌>>=◌,
}
use aquilo_offline.Base.Decimal.{show_i64}
use aquilo_offline.Core.Calibration.{default_calibration, default_full_dist, default_empty_dist}
use aquilo_offline.Onboard.Facts.{Seed, Facts, is_complete}
use aquilo_offline.Server.Runtime.{PersistedState}

pub record OnboardOptions : Type 0 where
  pub bind_addr : Str
  pub listen_port : ℕ
  pub out_config : Str
  pub data_dir : Str

-- A line `key = "value"`, and a line `key = value`.
abbrev quoted : String → Str → Str
quoted key value = codes key ++ (codes " = " ++ (b'"' ∷ (value ++ (b'"' ∷ 10 ∷ []))))

abbrev plain : String → Str → Str
plain key value = codes key ++ (codes " = " ++ (value ++ (10 ∷ [])))

abbrev line : String → Str
line text = codes text ++ (10 ∷ [])

-- The facts that a config needs, all of them there.
pub record Complete (R : Type 0) : Type 0 where
  pub receiver_id : Str
  pub mqtt_user : Str
  pub mqtt_pass : Str
  pub firmware : Str
  pub sensor_id : Str
  pub seed : Seed R

module _ {R : Type 0} where
  -- The `unwrap`s behind the test that nothing is missing; `none` is that test's refusal.
  unfoldable pub complete_facts : Facts R → Option (Complete R)
  complete_facts f = do
    receiver_id ← f.receiver_id
    mqtt_user ← f.mqtt_user
    mqtt_pass ← f.mqtt_pass
    firmware ← f.firmware
    sensor_id ← f.sensor_id
    seed ← f.seed
    some (record {
      receiver_id = receiver_id;
      mqtt_user = mqtt_user;
      mqtt_pass = mqtt_pass;
      firmware = firmware;
      sensor_id = sensor_id;
      seed = seed;
    })

module _ {R : Type 0} (F : F64 R) where
  open F use {debug}

  unfoldable pub config_text : Facts R → Complete R → OnboardOptions → Str
  unfolding flatten
  config_text f c opts = flatten (
      (codes "# Generated by aquilo-server onboarding "
        ++ (0xE2 ∷ 0x80 ∷ 0x94 ∷ line " recovered from your live device."))
      ∷ line "# All topics derive from receiver_id; the firmware came from the device's own"
      ∷ line "# /log announcement. Calibration is the documented default (40/178); adjust"
      ∷ line "# full_dist/empty_dist if pct/lvlToFull don't match your tank."
      ∷ line ""
      ∷ quoted "receiver_id" c.receiver_id
      ∷ quoted "sensor_id" c.sensor_id
      ∷ quoted "mqtt_user" c.mqtt_user
      ∷ quoted "mqtt_pass" c.mqtt_pass
      ∷ quoted "firmware_version" c.firmware
      ∷ quoted "sensor_name" (unwrap_or f.sensor_name c.sensor_id)
      ∷ line ""
      ∷ plain "radar_skip" (show_i64 (unwrap_or f.radar_skip (pos 9)))
      ∷ plain "radar_repeat" (show_i64 (unwrap_or f.radar_repeat (pos 9)))
      ∷ line ""
      ∷ quoted "bind_addr" (codes "0.0.0.0")
      ∷ line "listen_port = 1883"
      ∷ line "ping_interval_secs = 1200"
      ∷ line ""
      ∷ quoted "data_dir" opts.data_dir
      ∷ line "history_max_len = 500"
      ∷ line "pump_out_drop_pct = 25"
      ∷ line ""
      ∷ line "[calibration]"
      ∷ plain "full_dist" (debug (default_full_dist F))
      ∷ plain "empty_dist" (debug (default_empty_dist F))
      ∷ line ""
      ∷ line "[state]"
      ∷ plain "lvl" (debug c.seed.lvl)
      ∷ plain "pct" (show_i64 c.seed.pct)
      ∷ plain "bat" (show_i64 c.seed.bat)
      ∷ plain "days_left" (show_i64 c.seed.days_left)
      ∷ plain "lvl_to_full" (show_i64 c.seed.lvl_to_full)
      ∷ quoted "lst_empty" c.seed.lst_empty
      ∷ quoted "from" c.seed.from
      ∷ [])

  unfoldable pub render_config : Facts R → OnboardOptions → Option Str
  unfolding complete_facts config_text
  render_config f opts = do c ← complete_facts f; some (config_text f c opts)

  -- The initial state file.
  unfoldable pub initial_state : Facts R → Complete R → Str → PersistedState R
  initial_state f c now = record {
    history = [];
    lst_empty = c.seed.lst_empty;
    last_state = some (record {
      id = c.sensor_id;
      name = unwrap_or f.sensor_name c.sensor_id;
      lvl = c.seed.lvl;
      pct = c.seed.pct;
      bat = c.seed.bat;
      lst_read = now;
      lst_empty = c.seed.lst_empty;
      days_left = c.seed.days_left;
      lvl_to_full = c.seed.lvl_to_full;
      from = c.seed.from;
    });
    calibration = default_calibration F;
  }

-- The file system over its states `W`: a file's parent folder, `create_dir_all` whose error is
-- dropped, `fs::write`, and the save of a `JsonFileStore` in a folder; `false` is an error.
pub record Disk (W R : Type 0) : Type 0 where
  pub parent : Str → Option Str
  pub create_dir_all : W → Str → W
  pub write : W → Str → Bytes → W × Bool
  pub save : W → Str → PersistedState R → W × Bool

-- The shared part of an onboarding run: the facts, the flag `written`, and the disk.
pub record Session (W R : Type 0) : Type 0 where
  pub facts : Facts R
  pub written : Bool
  pub disk : W

module _ {W R : Type 0} (F : F64 R) (D : Disk W R) where
  abbrev pub make_parent : W → Option Str → W
  make_parent w none = w
  make_parent w (some []) = w
  make_parent w (some (c ∷ dir)) = D.create_dir_all w (c ∷ dir)

  abbrev pub save_after : W × Bool → Str → PersistedState R → W × Bool
  save_after (w, true) dir p = D.save w dir p
  save_after (w, false) dir p = (w, false)

  abbrev pub write_complete : W → Facts R → Option (Complete R) → OnboardOptions → Str → W × Bool
  write_complete w f none opts now = (w, false)
  write_complete w f (some c) opts now =
      save_after
        (D.write (make_parent w (D.parent opts.out_config)) opts.out_config
          (config_text F f c opts))
        opts.data_dir (initial_state F f c now)

  unfoldable pub write_outputs : W → Facts R → OnboardOptions → Str → W × Bool
  unfolding complete_facts initial_state
  write_outputs w f opts now = write_complete w f (complete_facts f) opts now

  -- A failed write clears the flag again, so that a later packet tries once more.
  unfoldable pub maybe_finalize : OnboardOptions → Str → Session W R → Session W R
  unfolding write_outputs is_complete
  maybe_finalize opts now s =
      if is_complete s.facts && not s.written
      then (let (disk, done) = write_outputs s.disk s.facts opts now in
          record { facts = s.facts; written = done; disk = disk })
      else s
