-- ===== src/Tests/Stored.antt =====
-- The unit tests of aquilo-store/src/lib.rs.
use aquilo_offline.Base.{ends_with}
use aquilo_offline.Base.{
  ◌≡◌, refl, ℤ, pos, F64, whole, none, some, [], ◌∷◌, Str, codes, true, bytes_eq,
}
use aquilo_offline.Base.Json.{Json}
use aquilo_offline.Core.Calibration.{default_calibration}
use aquilo_offline.Core.State.{SensorState, to_json}
use aquilo_offline.Examples.Toy.{hundredths, no_files}
use aquilo_offline.Server.Runtime.{PersistedState, found, absent}
use aquilo_offline.Store.{Files, Codec, missing, no_fault, in_dir, load, save}
use aquilo_offline.Tests.Values.{values, decoder}

module _ {R : Type 0} (F : F64 R) where
  abbrev last_sample : SensorState R
  last_sample = record {
    id = codes "ae5058";
    name = codes "ae5058";
    lvl = whole F (pos 140);
    pct = pos 28;
    bat = pos 82;
    lst_read = codes "2026-06-02T00:00:00+02:00";
    lst_empty = codes "2026-05-30T00:17:19+02:00";
    days_left = pos 12;
    lvl_to_full = pos 100;
    from = codes "node-4";
  }

  abbrev sample_state : PersistedState R
  sample_state = record {
    history =
        (record { ts = codes "2026-06-01T00:00:00+02:00"; lvl = whole F (pos 150); bat = pos 83 })
        ∷ (record { ts = codes "2026-06-02T00:00:00+02:00"; lvl = whole F (pos 140); bat = pos 82 })
        ∷ [];
    lst_empty = codes "2026-05-30T00:17:19+02:00";
    last_state = some last_sample;
    calibration = default_calibration F;
  }

  -- `PersistedState::default()`
  abbrev default_state : PersistedState R
  default_state = record {
    history = [];
    lst_empty = [];
    last_state = none;
    calibration = default_calibration F;
  }

  module _ (C : Codec R) (fs : Files) (dir : Str) where
    abbrev RoundTripsThroughTheFile : Type 0
    RoundTripsThroughTheFile =
        let saved = save C (in_dir dir) no_fault fs sample_state in
        (load C (in_dir dir) fs ≡ absent)
        × (saved.1 ≡ true)
        × (load C (in_dir dir) saved.0 ≡ found sample_state)

    abbrev ReloadReproducesTheSeededStateJson : {V : Type 0} → Json V R → Type 0
    ReloadReproducesTheSeededStateJson {V} J =
        let saved = save C (in_dir dir) no_fault fs sample_state in
        (original : SensorState R) × (reloaded : PersistedState R) × (seeded : SensorState R)
        × (sample_state.last_state ≡ some original)
        × (saved.1 ≡ true)
        × (load C (in_dir dir) saved.0 ≡ found reloaded)
        × (reloaded.last_state ≡ some seeded)
        × (to_json J seeded ≡ to_json J original)

    abbrev updated : PersistedState R
    updated = record sample_state { lst_empty = codes "2026-06-09T10:00:00+02:00" }

    abbrev SaveOverwritesAtomicallyLeavingNoTempFile : Type 0
    SaveOverwritesAtomicallyLeavingNoTempFile =
        let first = save C (in_dir dir) no_fault fs default_state in
        let second = save C (in_dir dir) no_fault first.0 updated in
        (first.1 ≡ true)
        × (second.1 ≡ true)
        × (load C (in_dir dir) second.0 ≡ found updated)
        × (second.0 (in_dir dir).tmp ≡ missing)

-- A codec that tells the states of these tests apart by their `lst_empty`.
abbrev codec : Codec ℤ
codec = record {
  to_vec_pretty = λ p. some p.lst_empty;
  from_slice = λ bytes.
      decoder
        (([], default_state hundredths)
          ∷ (codes "2026-05-30T00:17:19+02:00", sample_state hundredths)
          ∷ (
            codes "2026-06-09T10:00:00+02:00",
            record (sample_state hundredths) { lst_empty = codes "2026-06-09T10:00:00+02:00" },
          )
          ∷ [])
        bytes;
}

round_trips_through_the_file : RoundTripsThroughTheFile hundredths codec no_files (codes "d")
unfolding load save bytes_eq in_dir ends_with
round_trips_through_the_file = (refl, refl, refl)

reload_reproduces_the_seeded_state_json :
    ReloadReproducesTheSeededStateJson hundredths codec no_files (codes "d") (values (λ b. none))
unfolding load save bytes_eq in_dir ends_with
reload_reproduces_the_seeded_state_json = (_, _, _, refl, refl, refl, refl, refl)

save_overwrites_atomically_leaving_no_temp_file :
    SaveOverwritesAtomicallyLeavingNoTempFile hundredths codec no_files (codes "d")
unfolding load save bytes_eq in_dir ends_with
save_overwrites_atomically_leaving_no_temp_file = (refl, refl, refl, refl)
