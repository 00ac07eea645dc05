-- ===== src/Examples/Handover.antt =====
-- A run from onboarding to the start of the server, with the stand-ins of Toy.
use aquilo_offline.Core.Calibration.{default_empty_dist, default_full_dist}
use aquilo_offline.Base.Decimal.{show_i64}
use aquilo_offline.Base.{
  Option, if◌then◌else◌, from_utf8, bytes_eq_refl, ◌≡◌, refl, ap, arith, true, some, none, [], ◌∷◌,
  codes, bytes_eq, Str, ℤ, pos, unwrap_or, length, ◌≢◌, ends_with,
}
use aquilo_offline.Examples.Toy.{hundredths, config, options, codec, no_files}
use aquilo_offline.Onboard.Facts.{Seed, Facts}
use mathlib.Core.Path.{subst}
use aquilo_offline.Onboard.Handover.{disk_of, onboarded}
use aquilo_offline.Onboard.Start.{rendered, IsRead, Starts, write_outputs-Starts}
use aquilo_offline.Server.Config.{ConfigFile}
use aquilo_offline.Onboard.Output.{
  Complete, complete_facts, config_text, initial_state, write_outputs,
}
use aquilo_offline.Core.State.{to_json}
use aquilo_offline.Examples.Toy.{parse_ts, decode, texts}
use aquilo_offline.Onboard.Resume.{onboarded-retained}
use aquilo_offline.Server.Handler.{Env, topics, conn_ack, start, serve}
use aquilo_offline.Server.Retained.{retained_on}
use aquilo_offline.Store.{Files, no_fault, at_rename, in_dir, new_store, join, file_store, Codec}
use aquilo_offline.Store.Crash.{Reads}

abbrev now : Str
now = codes "T"

abbrev known_seed : Seed ℤ
known_seed = record {
  lvl = pos 15020;
  pct = pos 20;
  bat = pos 83;
  days_left = pos 51;
  lvl_to_full = pos 110;
  lst_empty = codes "L";
  from = codes "node-4";
}

abbrev all_known : Facts ℤ
all_known = record {
  receiver_id = some (codes "r1");
  client_id = none;
  mqtt_user = some (codes "u");
  mqtt_pass = some (codes "p");
  firmware = some (codes "1.2");
  sensor_id = some (codes "n4");
  sensor_name = none;
  radar_skip = none;
  radar_repeat = none;
  seed = some known_seed;
}

abbrev complete : Complete ℤ
complete = record {
  receiver_id = codes "r1";
  mqtt_user = codes "u";
  mqtt_pass = codes "p";
  firmware = codes "1.2";
  sensor_id = codes "n4";
  seed = known_seed;
}

abbrev json : Codec ℤ
unfolding initial_state
json = codec (initial_state hundredths all_known complete now)

config_path : options.out_config ≢ (in_dir options.data_dir).path
unfolding in_dir new_store join ends_with
config_path e = omega (arith, ap (λ (p : Str). length p) e)

config_tmp : options.out_config ≢ (in_dir options.data_dir).tmp
unfolding in_dir new_store join ends_with
config_tmp e = omega (arith, ap (λ (p : Str). length p) e)

reads :
    (c : Complete ℤ)
    → complete_facts all_known ≡ some c
    → Reads json (in_dir options.data_dir).path no_files (initial_state hundredths all_known c now)
unfolding complete_facts json
reads c known bytes e =
    let same : 1 ∷ 2 ∷ 3 ∷ [] ≡ bytes = cc in
    let c' : complete ≡ c = ap (λ o. unwrap_or o complete) known in
    rw (← same, ← c') (unfold bytes_eq in refl)

-- A decoder that knows the rendered config, and nothing else.
abbrev toml : Str → Option (ConfigFile ℤ)
toml text =
    if bytes_eq text (config_text hundredths all_known complete options)
    then some (rendered hundredths all_known complete options)
    else none

read_complete : IsRead hundredths toml all_known complete options
unfolding config_text from_utf8 show_i64 default_full_dist default_empty_dist
read_complete = record {
  text = refl;
  values = rw (bytes_eq_refl (config_text hundredths all_known complete options)) refl;
}

read :
    (c : Complete ℤ)
    → complete_facts all_known ≡ some c
    → IsRead hundredths toml all_known c options
unfolding complete_facts
read c known =
    let same : complete ≡ c = ap (λ o. unwrap_or o complete) known in
    subst (λ x. IsRead hundredths toml all_known x options) same read_complete

-- The save of the state stops at the rename, behind the config.
write_outputs-Starts_example :
    Starts hundredths json toml
      (λ p. none)
      at_rename
      no_files
      all_known
      options
      now
      (codes "T2")
      none
      (write_outputs hundredths
        (disk_of json (λ p. none) none at_rename)
        no_files
        all_known
        options
        now)
write_outputs-Starts_example =
    write_outputs-Starts hundredths json toml (λ p. none) at_rename no_files all_known options now
      (codes "T2") config_path config_tmp reads read none

abbrev serving : Env Files Str ℤ
serving = record {
  float = hundredths;
  json = texts;
  parse_ts = parse_ts;
  decode = decode;
  storage = file_store json (in_dir config.data_dir) no_fault;
  cfg = config;
  link = λ r. true;
}

onboarded-retained_example :
    (c : Complete ℤ) × (complete_facts all_known ≡ some c)
    × (retained_on
          (topics serving).state
          (serve serving ((conn_ack, now) ∷ []) (
            start serving
              (write_outputs hundredths
                (disk_of json (λ p. none) none no_fault)
                no_files
                all_known
                options
                now).0
              (codes "T2"))).0.sent
        ≡ texts.to_vec (to_json texts (onboarded all_known c config now).current))
onboarded-retained_example =
    onboarded-retained serving json no_fault no_files all_known options now (codes "T2") now
      (λ p. none) refl refl config_path config_tmp reads
      (unfold write_outputs disk_of complete_facts in refl) (unfold serve in refl)
