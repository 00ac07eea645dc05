-- ===== src/Server/History.antt =====
-- The cap on the history and the state in the store, over any sequence of events of server.rs.
use aquilo_offline.Base.{ℤ, F64, ◌≤◌, ◌≡◌, refl, some, List, Str, length}
use aquilo_offline.Core.Battery.{default_points, percent}
use aquilo_offline.Core.Reading.{Reading}
use aquilo_offline.Server.Handler.{World, Event, Env, fold_reading, serve}
use aquilo_offline.Server.Handler.{start}
use aquilo_offline.Server.Keeps.{serve-Keeps}
use aquilo_offline.Server.Runtime.{PersistedState, found, snapshot, persist}
use aquilo_offline.Server.Transition.{apply_reading-Applied}

-- The default curve gives every voltage a percentage.
pub default-percent :
    {R : Type 0} (F : F64 R) (mv : ℤ) → (bat : ℤ) × (percent F default_points mv ≡ some bat)
unfolding percent default_points
default-percent F mv = (_, refl)

module _ {S V R : Type 0} (e : Env S V R) where
  open e use {float, json, parse_ts, decode, storage, cfg, link}

  -- No more records than the configured cap.
  abbrev pub IsCapped : World S R → Type 0
  IsCapped w = length w.rt.history ≤ cfg.history_max_len

  fold_reading-IsCapped :
      (reading : Reading R) (now : Str) (w : World S R)
      → IsCapped w
      → IsCapped (fold_reading e reading now w).0
  unfolding fold_reading
  fold_reading-IsCapped reading now w h =
      let (bat, eq) = default-percent float reading.battery_mv in
      let (rt, step, applied) =
        apply_reading-Applied float parse_ts w.rt cfg default_points reading now eq in
      rw (step, fold_reading) applied.capped

  -- A history within the cap stays so through any events, however the loop ends.
  pub serve-IsCapped :
      (events : List (Event × Str)) (w : World S R) → IsCapped w → IsCapped (serve e events w).0
  serve-IsCapped = serve-Keeps e IsCapped (λ w r made h. h) fold_reading-IsCapped

  -- The store holds the runtime as it is.
  pub record IsSaved (w : World S R) : Type 0 where
    pub saved : storage.load w.store ≡ found (snapshot cfg w.rt)

module _ {S V R : Type 0} (e : Env S V R) where
  open e use {float, json, parse_ts, decode, storage, cfg, link}

  -- What a save of the store promises: the next load gives the state that was saved.
  pub record IsDurable : Type 0 where
    pub reads : (s : S) (p : PersistedState R) → storage.load (storage.save s p).0 ≡ found p

  fold_reading-IsSaved :
      IsDurable
      → (reading : Reading R) (now : Str) (w : World S R) → IsSaved e w
      → IsSaved e (fold_reading e reading now w).0
  unfolding fold_reading persist
  fold_reading-IsSaved durable reading now w h =
      let (bat, eq) = default-percent float reading.battery_mv in
      let (rt, step, applied) =
        apply_reading-Applied float parse_ts w.rt cfg default_points reading now eq in
      rw (step, fold_reading) (record { saved = durable.reads w.store (snapshot cfg rt) })

  start-IsSaved : IsDurable → (store : S) (now : Str) → IsSaved e (start e store now)
  unfolding start persist
  start-IsSaved durable store now = record { saved = durable.reads store _ }

  -- With a store whose saves are read back, the store holds the current runtime from the start on and
  -- after any events, also where an error ended the loop before the state was published.
  pub serve-IsSaved :
      (events : List (Event × Str)) (store : S) (now : Str)
      → IsDurable
      → IsSaved e (serve e events (start e store now)).0
  serve-IsSaved events store now durable =
      serve-Keeps e (IsSaved e) (λ w r made h. record { saved = h.saved })
        (fold_reading-IsSaved durable) events (start e store now) (start-IsSaved durable store now)
