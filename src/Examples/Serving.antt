-- ===== src/Examples/Serving.antt =====
-- Runs of the serve loop and of the store with the stand-ins of Toy.
use aquilo_offline.Base.{
  bytes_eq, ℕ, ℤ, pos, ◌≡◌, refl, arith, true, false, none, List, [], ◌∷◌, ◌++◌, codes, ◌⊎◌,
}
use aquilo_offline.Core.Battery.{default_points, percent}
use aquilo_offline.Core.Reading.{Reading, parse_reading, parse_raw}
use aquilo_offline.Examples.Toy.{hundredths, config, server_env, codec, no_files}
use aquilo_offline.Server.Contract.{Serves}
use aquilo_offline.Server.Fulfils.{serve-Serves}
use aquilo_offline.Server.Handler.{
  Request, done, World, Event, conn_ack, incoming, poll_error, start, serve,
}
use aquilo_offline.Server.History.{IsCapped, serve-IsCapped, IsSaved, serve-IsSaved}
use aquilo_offline.Server.Liveness.{serve-done}
use aquilo_offline.Server.Restart.{settled, restart}
use aquilo_offline.Server.Runtime.{
  PersistedState, Loaded, absent, found, seed_runtime, snapshot, apply_reading, load_runtime,
  persist,
}
use aquilo_offline.Server.Retained.{IsPublished}
use aquilo_offline.Server.Serve.{serve-connected}
use aquilo_offline.Server.Topics.{new_topics}
use aquilo_offline.Store.{at_write, new_store, save, load, file_store}
use aquilo_offline.Store.Crash.{save_atomic, Reads}
use aquilo_offline.Base.Decimal.{parse_i64}
use aquilo_offline.Core.State.{compute}

abbrev now : List ℕ
now = codes "T"

abbrev first : World (Loaded ℤ) ℤ
first = start server_env absent now

-- A reading arrives, and then a line that is no firmware, and the poll fails once.
abbrev events : List (Event × List ℕ)
events =
    (incoming (new_topics (codes "r1")).read (codes "x"), now)
    ∷ (incoming (codes "other") [], now)
    ∷ (poll_error, now)
    ∷ []

serve-connected_example :
    IsPublished server_env (serve server_env ((conn_ack, now) ∷ events) first).0
unfolding bytes_eq new_topics parse_reading parse_raw parse_i64 apply_reading percent default_points
    compute
serve-connected_example = serve-connected server_env now events first (unfold serve in refl)

serve-IsCapped_example : IsCapped server_env (serve server_env events first).0
serve-IsCapped_example = serve-IsCapped server_env events first (unfold start in omega arith)

abbrev reading : Reading ℤ
reading = record {
  sensor = codes "n4";
  version = none;
  level_cm = pos 15020;
  battery_mv = pos 3770;
  read_no = none;
  last_sent = none;
  amp1 = none;
  temp = none;
  raw = none;
}

abbrev saved : PersistedState ℤ
saved = snapshot config (seed_runtime config now)

reads : Reads (codec saved) (codes "s") no_files saved
reads bytes e = let same : 1 ∷ 2 ∷ 3 ∷ [] ≡ bytes = cc in rw (← same) (unfold bytes_eq in refl)

-- A save that stops behind the second byte of three.
save_atomic_example :
    ((save (codec saved) (new_store (codes "s")) (at_write 2) no_files saved).1 ≡ false)
      × (load
            (codec saved)
            (new_store (codes "s"))
            (save (codec saved) (new_store (codes "s")) (at_write 2) no_files saved).0
          ≡ load (codec saved) (new_store (codes "s")) no_files)
    ⊎ ((save (codec saved) (new_store (codes "s")) (at_write 2) no_files saved).1 ≡ true)
      × (load
            (codec saved)
            (new_store (codes "s"))
            (save (codec saved) (new_store (codes "s")) (at_write 2) no_files saved).0
          ≡ found saved)
unfolding snapshot
save_atomic_example = save_atomic (codec saved) (codes "s") no_files saved (at_write 2) reads

restart_example :
    ((save (codec saved) (new_store (codes "s")) (at_write 2) no_files saved).1 ≡ false)
      × (load_runtime
            (file_store (codec saved) (new_store (codes "s")) (at_write 2))
            config
            (persist
              (file_store (codec saved) (new_store (codes "s")) (at_write 2))
              no_files
              config
              (seed_runtime config now))
            now
          ≡ load_runtime
              (file_store (codec saved) (new_store (codes "s")) (at_write 2))
              config
              no_files
              now)
    ⊎ ((save (codec saved) (new_store (codes "s")) (at_write 2) no_files saved).1 ≡ true)
      × (load_runtime
            (file_store (codec saved) (new_store (codes "s")) (at_write 2))
            config
            (persist
              (file_store (codec saved) (new_store (codes "s")) (at_write 2))
              no_files
              config
              (seed_runtime config now))
            now
          ≡ settled config (seed_runtime config now))
restart_example =
    restart (codec saved) (codes "s") no_files config (seed_runtime config now) now (at_write 2)
      reads

serve-done_example : (serve server_env ((conn_ack, now) ∷ events) first).1 ≡ done
serve-done_example =
    serve-done server_env (record { takes = λ r. refl; serialises = λ v. refl })
      ((conn_ack, now) ∷ events) first

serve-IsSaved_example : IsSaved server_env (serve server_env events (start server_env absent now)).0
serve-IsSaved_example = serve-IsSaved server_env events absent now (record { reads = λ s p. refl })

serve-Serves_example :
    (rs : List Request) × ((serve server_env ((conn_ack, now) ∷ events) first).0.sent
      ≡ first.sent ++ rs)
    × Serves server_env first.rt
        ((conn_ack, now) ∷ events)
        rs
        (serve server_env ((conn_ack, now) ∷ events) first).0.rt
unfolding bytes_eq new_topics parse_reading parse_raw parse_i64 apply_reading percent default_points
    compute
serve-Serves_example =
    serve-Serves server_env ((conn_ack, now) ∷ events) first (unfold serve in refl)
