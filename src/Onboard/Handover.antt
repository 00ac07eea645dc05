-- ===== src/Onboard/Handover.antt =====
-- From onboarding to serving: `write_outputs` of onboard.rs over the files of `JsonFileStore`, and
-- `load_runtime` of server.rs behind it.
use mathlib.Core.Path.{subst}
use aquilo_offline.Base.{
  ◌≡◌, ◌≢◌, refl, ap, ◌∙◌, sym, true, false, F64, Option, none, some, [], ◌∷◌, Bool, Str, ◌⊎◌, inl,
  inr, Option-cases, unwrap_or,
}
use aquilo_offline.Onboard.Facts.{Facts}
use aquilo_offline.Onboard.Output.{
  OnboardOptions, Complete, complete_facts, config_text, initial_state, Disk, write_outputs,
  make_parent, save_after, write_complete,
}
use aquilo_offline.Server.Config.{Config}
use aquilo_offline.Server.Runtime.{Runtime, runtime_of, load_runtime, or_if_empty, found}
use aquilo_offline.Store.{
  Entry, decoded, holds, Files, put, Fault, Codec, in_dir, load, save, file_store,
}
use aquilo_offline.Store.Elsewhere.{put_elsewhere, put_same, save_elsewhere}
use aquilo_offline.Store.Crash.{Reads, save_atomic}

-- The disk of onboarding over these files, in which folders have no entry. `fs::write` succeeds, or
-- fails and leaves some entry at its path; the save of the state stops at `fault` or nowhere.
unfoldable pub disk_of :
    {R : Type 0} → Codec R → (Str → Option Str) → Option Entry → Fault → Disk Files R
unfolding put save in_dir
disk_of C parent broken fault = record {
  parent = parent;
  create_dir_all = λ fs dir. fs;
  write = λ fs path bytes. elim broken [
    | none ↦ (put fs path (holds bytes), true)
    | some left ↦ (put fs path left, false)
  ];
  save = λ fs dir p. save C (in_dir dir) fault fs p;
}

-- The runtime that the facts stand for, as of the time they were written.
abbrev pub onboarded : {R : Type 0} → Facts R → Complete R → Config R → Str → Runtime R
onboarded f c cfg now = record {
  current = record {
    id = c.sensor_id;
    name = unwrap_or f.sensor_name c.sensor_id;
    lvl = c.seed.lvl;
    pct = c.seed.pct;
    bat = c.seed.bat;
    lst_read = now;
    lst_empty = c.seed.lst_empty;
    days_left = c.seed.days_left;
    lvl_to_full = c.seed.lvl_to_full;
    from = c.seed.from;
  };
  history = [];
  lst_empty = or_if_empty c.seed.lst_empty cfg.state.lst_empty;
}

-- Creating the folder changes no file.
pub kept_folder :
    {R : Type 0} (F : F64 R) (C : Codec R) (parent : Str → Option Str) (fault : Fault) (fs : Files)
    (broken : Option Entry) (path : Option Str)
    → make_parent F (disk_of C parent broken fault) fs path ≡ fs
unfolding disk_of
kept_folder F C parent fault fs broken none = refl
kept_folder F C parent fault fs broken (some []) = refl
kept_folder F C parent fault fs broken (some (c ∷ dir)) = refl

module _ {R : Type 0} (F : F64 R) (C : Codec R) (parent : Str → Option Str) (fault : Fault)
    (fs : Files) (f : Facts R) (opts : OnboardOptions) (cfg : Config R) (now later : Str)
    (same : cfg.data_dir ≡ opts.data_dir)
    (config_path : opts.out_config ≢ (in_dir opts.data_dir).path)
    (config_tmp : opts.out_config ≢ (in_dir opts.data_dir).tmp)
    (reads : (c : Complete R)
      → complete_facts f ≡ some c
      → Reads C (in_dir opts.data_dir).path fs (initial_state F f c now)) where
  -- What the server starts from, over the files.
  abbrev started : Files → Runtime R
  started fs' = load_runtime (file_store C (in_dir cfg.data_dir) fault) cfg fs' later

  started-load :
      (a b : Files)
      → load C (in_dir opts.data_dir) a ≡ load C (in_dir opts.data_dir) b
      → started a ≡ started b
  unfolding load_runtime
  started-load a b e = rw same (ap (runtime_of cfg later) e)

  -- What a write leaves, and whether it was done.
  abbrev Handed : Files × Bool → Type 0
  Handed (left, ok) =
      (ok ≡ false) × (started left ≡ started fs)
      ⊎ (ok ≡ true)
        × (c : Complete R) × (complete_facts f ≡ some c)
        × (started left ≡ onboarded f c cfg now)
        × (left opts.out_config ≡ holds (config_text F f c opts))

  started-found :
      (a : Files) (c : Complete R)
      → load C (in_dir opts.data_dir) a ≡ found (initial_state F f c now)
      → started a ≡ onboarded f c cfg now
  unfolding load_runtime initial_state runtime_of
  started-found a c e = rw same (ap (runtime_of cfg later) e)

  -- Another entry at the config's path.
  started-put : (x : Entry) → started (put fs opts.out_config x) ≡ started fs
  unfolding load
  started-put x = started-load (put fs opts.out_config x) fs (
      ap (decoded C)
        (put_elsewhere fs opts.out_config (in_dir opts.data_dir).path x (λ e. config_path (sym e))))

  -- The save of the first state, behind the config.
  saved :
      (c : Complete R)
      → complete_facts f ≡ some c
      → Handed (
          save C
            (in_dir opts.data_dir)
            fault
            (put fs opts.out_config (holds (config_text F f c opts)))
            (initial_state F f c now))
  unfolding in_dir
  saved c known =
      let text = holds (config_text F f c opts) in
      let fs' = put fs opts.out_config text in
      let state = initial_state F f c now in
      let st = in_dir opts.data_dir in
      let after = (save C st fault fs' state).0 in
      let kept =
        save_elsewhere C st fault fs' state opts.out_config config_path config_tmp
        ∙ put_same fs opts.out_config text in
      elim (save_atomic C st.path fs' state fault (reads c known)) [
        | inl (stopped, old) ↦ inl (stopped, started-load after fs' old ∙ started-put text)
        | inr (done, new) ↦ inr (done, c, known, started-found after c new, kept)
      ]

  written_saved :
      (c : Complete R)
      → complete_facts f ≡ some c
      → (broken : Option Entry)
      → let disk = disk_of C parent broken fault in
        Handed (
          save_after F disk
            (disk.write fs opts.out_config (config_text F f c opts))
            opts.data_dir
            (initial_state F f c now))
  unfolding disk_of
  written_saved c known none = saved c known
  written_saved c known (some left) = inl (refl, started-put left)

  handed :
      (broken : Option Entry)
      → Handed (write_outputs F (disk_of C parent broken fault) fs f opts now)
  unfolding write_outputs disk_of
  handed broken =
      let disk = disk_of C parent broken fault in
      elim (Option-cases (complete_facts f)) [
        | inl e ↦ rw e (inl (refl, refl))
        | inr (c, e) ↦
            let complete = ap (λ o. write_complete F disk fs f o opts now) e in
            let folder =
              ap
                (λ w.
                  save_after F disk (disk.write w opts.out_config (config_text F f c opts))
                    opts.data_dir (initial_state F f c now))
                (kept_folder F C parent fault fs broken (parent opts.out_config)) in
            subst (λ r. Handed r) (sym (complete ∙ folder)) (written_saved c e broken)
      ]

  -- Onboarding hands its state over to a server whose config `cfg` is given, and not read from the
  -- config file (Onboard.Start does that): with a config file that is not one of the store's two files,
  -- and a codec that reads back what it wrote. Where the output was written, with all facts
  -- known, the server that starts over these files begins with the onboarded state, as read when it was
  -- written, and the config file has the rendered config; where it was not, at whatever call it
  -- stopped, the server begins as it would have before.
  pub handover :
      (broken : Option Entry)
      → ((write_outputs F (disk_of C parent broken fault) fs f opts now).1 ≡ false)
          × (started (write_outputs F (disk_of C parent broken fault) fs f opts now).0 ≡ started fs)
        ⊎ ((write_outputs F (disk_of C parent broken fault) fs f opts now).1 ≡ true)
          × (c : Complete R) × (complete_facts f ≡ some c)
          × (started (write_outputs F (disk_of C parent broken fault) fs f opts now).0
              ≡ onboarded f c cfg now)
          × ((write_outputs F (disk_of C parent broken fault) fs f opts now).0 opts.out_config
              ≡ holds (config_text F f c opts))
  handover broken = handed broken
