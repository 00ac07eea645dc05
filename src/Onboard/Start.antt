-- ===== src/Onboard/Start.antt =====
-- The server that starts over what `write_outputs` of onboard.rs has left: its config and its state are
-- read from the files, as main.rs does it, whatever call onboarding stopped at.
use mathlib.Core.Path.{subst}
use aquilo_offline.Base.{
  ◌≡◌, ◌≢◌, refl, ap, ◌∙◌, sym, true, false, F64, Option, none, some, pos, codes, Bool, Str, ◌⊎◌,
  inl, inr, Option-cases, unwrap_or, from_utf8, ◌>>=◌,
}
use aquilo_offline.Core.Calibration.{default_full_dist, default_empty_dist}
use aquilo_offline.Onboard.Facts.{Facts}
use aquilo_offline.Onboard.Handover.{disk_of, onboarded, kept_folder}
use aquilo_offline.Onboard.Output.{
  OnboardOptions, Complete, complete_facts, config_text, initial_state, write_outputs, save_after,
  write_complete,
}
use aquilo_offline.Server.Config.{Config, ConfigFile, resolve, load_config}
use aquilo_offline.Server.Runtime.{Runtime, runtime_of, load_runtime, found}
use aquilo_offline.Store.{
  Entry, missing, unreadable, holds, Files, put, Fault, Codec, in_dir, load, save, file_store,
  decoded,
}
use aquilo_offline.Store.Crash.{Reads, save_atomic}
use aquilo_offline.Store.Elsewhere.{put_elsewhere, put_same, save_elsewhere}

-- `fs::read_to_string`
abbrev pub text_of : Entry → Option Str
text_of missing = none
text_of unreadable = none
text_of (holds bytes) = from_utf8 bytes

module _ {R : Type 0} (F : F64 R) where
  -- The values of the rendered config.
  abbrev pub rendered : Facts R → Complete R → OnboardOptions → ConfigFile R
  rendered f c opts = record {
    receiver_id = c.receiver_id;
    sensor_id = c.sensor_id;
    mqtt_user = c.mqtt_user;
    mqtt_pass = c.mqtt_pass;
    firmware_version = c.firmware;
    sensor_name = unwrap_or f.sensor_name c.sensor_id;
    radar_skip = some (unwrap_or f.radar_skip (pos 9));
    radar_repeat = some (unwrap_or f.radar_repeat (pos 9));
    bind_addr = some (codes "0.0.0.0");
    listen_port = some 1883;
    ping_interval_secs = some 1200;
    data_dir = some opts.data_dir;
    history_max_len = some 500;
    pump_out_drop_pct = some (pos 25);
    calibration = some (record {
      full_dist = some (default_full_dist F);
      empty_dist = some (default_empty_dist F);
    });
    broker = none;
    state = some (record {
      lvl = some c.seed.lvl;
      pct = some c.seed.pct;
      bat = some c.seed.bat;
      days_left = some c.seed.days_left;
      lvl_to_full = some c.seed.lvl_to_full;
      lst_empty = some c.seed.lst_empty;
      from = some c.seed.from;
    });
  }

module _ {R : Type 0} (F : F64 R) (toml : Str → Option (ConfigFile R)) where
  -- The rendered config is a text, and TOML reads its values from it.
  pub record IsRead (f : Facts R) (c : Complete R) (opts : OnboardOptions) : Type 0 where
    pub text : from_utf8 (config_text F f c opts) ≡ some (config_text F f c opts)
    pub values : toml (config_text F f c opts) ≡ some (rendered F f c opts)

module _ {R : Type 0} (F : F64 R) (C : Codec R) (toml : Str → Option (ConfigFile R)) where
  -- A start of `serve` with this config file: the config is loaded, and the state from the folder that
  -- it names. `none` is the error of a config that cannot be loaded.
  unfoldable pub begins : Fault → Str → Files → Str → Option (Runtime R)
  unfolding load_config load_runtime
  begins fault config_path fs now = do
    cfg ← load_config F (λ path. text_of (fs path)) toml config_path
    some (load_runtime (file_store C (in_dir cfg.data_dir) fault) cfg fs now)

  module _ (parent : Str → Option Str) (fault : Fault) (fs : Files) (f : Facts R)
      (opts : OnboardOptions) (now later : Str) where
    abbrev pub cfg_of : Complete R → Config R
    unfolding resolve
    cfg_of c = resolve F (rendered F f c opts)

    -- The four ways that onboarding can end, and the server behind each of them.
    abbrev pub Starts : Option Entry → Files × Bool → Type 0
    Starts broken (left, ok) =
        (ok ≡ false) × (complete_facts f ≡ none) × (left ≡ fs)
        ⊎ (ok ≡ false) × ((x : Entry) × (broken ≡ some x) × (left ≡ put fs opts.out_config x))
        ⊎ (ok ≡ false)
          × ((c : Complete R) × (complete_facts f ≡ some c)
              × (begins fault opts.out_config left later
                  ≡ some (runtime_of (cfg_of c) later (load C (in_dir opts.data_dir) fs))))
        ⊎ (ok ≡ true)
          × (c : Complete R) × (complete_facts f ≡ some c)
          × (begins fault opts.out_config left later ≡ some (onboarded f c (cfg_of c) now))

    begins-rendered :
        (left : Files) (c : Complete R)
        → IsRead F toml f c opts
        → left opts.out_config ≡ holds (config_text F f c opts)
        → begins fault opts.out_config left later
          ≡ some (runtime_of (cfg_of c) later (load C (in_dir opts.data_dir) left))
    unfolding begins load_config load_runtime resolve
    begins-rendered left c read e = rw (e, read.text, read.values) refl

    started :
        (c : Complete R)
        → ◌≡◌ {A = Option (Runtime R)}
            (some (runtime_of (cfg_of c) later (found (initial_state F f c now))))
            (some (onboarded f c (cfg_of c) now))
    unfolding runtime_of initial_state resolve
    started c = refl

    module _ (config_path : opts.out_config ≢ (in_dir opts.data_dir).path)
        (config_tmp : opts.out_config ≢ (in_dir opts.data_dir).tmp)
        (reads : (c : Complete R)
          → complete_facts f ≡ some c
          → Reads C (in_dir opts.data_dir).path fs (initial_state F f c now))
        (read : (c : Complete R) → complete_facts f ≡ some c → IsRead F toml f c opts) where
      -- The config is there, and the save of the state behind it may stop.
      saved-Starts :
          (c : Complete R)
          → complete_facts f ≡ some c
          → (broken : Option Entry)
          → Starts broken (
              save C
                (in_dir opts.data_dir)
                fault
                (put fs opts.out_config (holds (config_text F f c opts)))
                (initial_state F f c now))
      unfolding in_dir load
      saved-Starts c known broken =
          let st = in_dir opts.data_dir in
          let text = holds (config_text F f c opts) in
          let fs' = put fs opts.out_config text in
          let state = initial_state F f c now in
          let after = (save C st fault fs' state).0 in
          let kept =
            save_elsewhere C st fault fs' state opts.out_config config_path config_tmp
            ∙ put_same fs opts.out_config text in
          let begun = begins-rendered after c (read c known) kept in
          let before : load C st fs' ≡ load C st fs =
            ap (decoded C)
              (put_elsewhere fs opts.out_config st.path text (λ e. config_path (sym e))) in
          elim (save_atomic C st.path fs' state fault (reads c known)) [
            | inl (stopped, old) ↦ inr (
                inr (
                  inl (
                    stopped,
                    (
                      c,
                      known,
                      begun ∙ ap (λ l. some (runtime_of (cfg_of c) later l)) (old ∙ before),
                    ),
                  )))
            | inr (done, new) ↦ inr (
                inr (
                  inr (
                    done,
                    c,
                    known,
                    begun ∙ ap (λ l. some (runtime_of (cfg_of c) later l)) new ∙ started c,
                  )))
          ]

      written-Starts :
          (c : Complete R)
          → complete_facts f ≡ some c
          → (broken : Option Entry)
          → let disk = disk_of C parent broken fault in
            Starts broken (
              save_after F disk
                (disk.write fs opts.out_config (config_text F f c opts))
                opts.data_dir
                (initial_state F f c now))
      unfolding disk_of
      written-Starts c known none = saved-Starts c known none
      written-Starts c known (some left) = inr (inl (refl, (left, refl, refl)))

      -- Onboarding and the start of `serve` with the same config file, one that is not one of the two
      -- files of the store, with a codec that reads back what it wrote and a TOML decoder that reads the
      -- rendered config. Without all facts no file is touched. Where the config could not be written,
      -- nothing but the config file is touched, and it is what the failed write left. Where the config
      -- was written and the state not saved, the server begins with the new config and the state that
      -- the store held before. Where the output was written, the server begins with the new config and
      -- the onboarded state. Onboarding reports only the last one as written.
      pub write_outputs-Starts :
          (broken : Option Entry)
          → Starts broken (write_outputs F (disk_of C parent broken fault) fs f opts now)
      unfolding write_outputs disk_of
      write_outputs-Starts broken =
          let disk = disk_of C parent broken fault in
          elim (Option-cases (complete_facts f)) [
            | inl e ↦
                let lacking = ap (λ o. write_complete F disk fs f o opts now) e in
                subst (λ r. Starts broken r) (sym lacking) (inl (refl, e, refl))
            | inr (c, e) ↦
                let complete = ap (λ o. write_complete F disk fs f o opts now) e in
                let folder =
                  ap
                    (λ w.
                      save_after F disk (disk.write w opts.out_config (config_text F f c opts))
                        opts.data_dir (initial_state F f c now))
                    (kept_folder F C parent fault fs broken (parent opts.out_config)) in
                subst (λ r. Starts broken r) (sym (complete ∙ folder)) (written-Starts c e broken)
          ]
