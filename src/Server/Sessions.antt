-- ===== src/Server/Sessions.antt =====
-- The server of server.rs stopped and started again, any number of times.
use mathlib.Core.Path.{subst}
use aquilo_offline.Base.{
  ◌≡◌, ◌≢◌, refl, ◌∙◌, ap, All, Bool, true, false, if◌then◌else◌, List, [], ◌∷◌, ◌++◌, Str,
}
use aquilo_offline.Core.Battery.{default_points}
use aquilo_offline.Server.Contract.{Serves, rests, connects, reads, echoes, idles, Serves-unique}
use aquilo_offline.Server.Fulfils.{serve-Serves}
use aquilo_offline.Server.Handler.{Request, Event, Env, start, serve}
use aquilo_offline.Server.History.{IsDurable, serve-IsSaved, default-percent}
use aquilo_offline.Server.Liveness.{IsOnline, serve-done}
use aquilo_offline.Server.Restart.{runtime_of-snapshot}
use aquilo_offline.Server.Runtime.{
  Runtime, Loaded, found, absent, failed, runtime_of, load_runtime, snapshot, or_if_empty,
}
use aquilo_offline.Server.Transition.{apply_reading-Applied}

-- The events of a session, and the clock's reading at its start.
abbrev pub Session : Type 0
Session = Str × List (Event × Str)

abbrev pub all_events : List Session → List (Event × Str)
all_events [] = []
all_events ((now, events) ∷ sessions) = events ++ all_events sessions

-- The clock gives a text.
abbrev pub AreTimed : List (Event × Str) → Type 0
AreTimed events = All (λ x. x.1 ≢ []) events

AreTimed-append : (es fs : List (Event × Str)) → AreTimed (es ++ fs) → AreTimed es × AreTimed fs
AreTimed-append [] fs h = (tt, h)
AreTimed-append (x ∷ es) fs h =
    let (first, rest) = AreTimed-append es fs h.1 in ((h.0, first), rest)

module _ {S V R : Type 0} (e : Env S V R) where
  open e use {float, json, parse_ts, decode, storage, cfg, link}

  -- The requests of all sessions, and the store that the last one leaves.
  unfoldable pub run_sessions : S → List Session → List Request × S
  unfolding start serve
  run_sessions store [] = ([], store)
  run_sessions store ((now, events) ∷ sessions) =
      let w = (serve e events (start e store now)).0 in
      let later = run_sessions w.store sessions in (w.sent ++ later.0, later.1)

  Serves-append :
      {rt rt1 rt2 : Runtime R} {es fs : List (Event × Str)} {rs ss : List Request}
      → Serves e rt es rs rt1
      → Serves e rt1 fs ss rt2
      → Serves e rt (es ++ fs) (rs ++ ss) rt2
  Serves-append rests l = l
  Serves-append (connects a b k) l = connects a b (Serves-append k l)
  Serves-append (reads a b c d k) l = reads a b c d (Serves-append k l)
  Serves-append (echoes a b k) l = echoes a b (Serves-append k l)
  Serves-append (idles i k) l = idles i (Serves-append k l)

  -- A runtime that a restart reads back as it is.
  record IsSettled (rt : Runtime R) : Type 0 where
    settled : or_if_empty rt.lst_empty cfg.state.lst_empty ≡ rt.lst_empty

  or_if_empty_same : (d : Str) → or_if_empty d d ≡ d
  or_if_empty_same [] = refl
  or_if_empty_same (c ∷ d) = refl

  or_if_empty_twice : (s d : Str) → or_if_empty (or_if_empty s d) d ≡ or_if_empty s d
  or_if_empty_twice [] d = or_if_empty_same d
  or_if_empty_twice (c ∷ s) d = refl

  or_if_empty_not : (s d : Str) → s ≢ [] → or_if_empty s d ≡ s
  or_if_empty_not [] d h = absurd (h refl)
  or_if_empty_not (c ∷ s) d h = refl

  runtime_of-IsSettled : (now : Str) (loaded : Loaded R) → IsSettled (runtime_of cfg now loaded)
  unfolding runtime_of
  runtime_of-IsSettled now (found p) = record {
    settled = or_if_empty_twice p.lst_empty cfg.state.lst_empty;
  }
  runtime_of-IsSettled now absent = record { settled = or_if_empty_same cfg.state.lst_empty }
  runtime_of-IsSettled now failed = record { settled = or_if_empty_same cfg.state.lst_empty }

  baseline-IsSettled :
      (b : Bool) (now old : Str)
      → now ≢ []
      → or_if_empty old cfg.state.lst_empty ≡ old
      → or_if_empty (if b then now else old) cfg.state.lst_empty ≡ (if b then now else old)
  baseline-IsSettled true now old h k = or_if_empty_not now cfg.state.lst_empty h
  baseline-IsSettled false now old h k = k

  Serves-IsSettled :
      {rt rt' : Runtime R} {es : List (Event × Str)} {rs : List Request}
      → Serves e rt es rs rt'
      → AreTimed es
      → IsSettled rt
      → IsSettled rt'
  Serves-IsSettled rests t h = h
  Serves-IsSettled (connects a b k) t h = Serves-IsSettled k t.1 h
  Serves-IsSettled (reads {rt = rt} {rt1 = rt1} {now = now} {reading = reading} a b c d k) t h =
      let (bat, eq) = default-percent float reading.battery_mv in
      let (rt2, step, applied) =
        apply_reading-Applied float parse_ts rt cfg default_points reading now eq in
      let same : rt1 ≡ rt2 = cc in
      Serves-IsSettled k t.1 (record {
        settled = rw (same, applied.baseline) (baseline-IsSettled _ now rt.lst_empty t.0 h.settled);
      })
  Serves-IsSettled (echoes a b k) t h = Serves-IsSettled k t.1 h
  Serves-IsSettled (idles i k) t h = Serves-IsSettled k t.1 h

  -- A start over the state of a settled runtime goes on from it.
  start-resumes :
      (store : S) (now : Str) (rt : Runtime R)
      → storage.load store ≡ found (snapshot cfg rt)
      → IsSettled rt
      → (start e store now).rt ≡ rt
  unfolding start load_runtime
  start-resumes store now rt h k =
      ap (runtime_of cfg now) h
      ∙ runtime_of-snapshot cfg rt now
      ∙ ap (λ s. record rt { lst_empty = s }) k.settled

  start-IsSettled : (store : S) (now : Str) → IsSettled (start e store now).rt
  unfolding start load_runtime
  start-IsSettled store now = runtime_of-IsSettled now (storage.load store)

  start_sent : (store : S) (now : Str) → (start e store now).sent ≡ []
  unfolding start
  start_sent store now = refl

  module _ (online : IsOnline e) (durable : IsDurable e) where
    -- One session, from the runtime that it starts with.
    session-Serves :
        (store : S) (now : Str) (es : List (Event × Str))
        → let w = (serve e es (start e store now)).0 in
          Serves e (start e store now).rt es w.sent w.rt
          × (storage.load w.store ≡ found (snapshot cfg w.rt))
    session-Serves store now es =
        let first = start e store now in
        let (rs, sent, k) = serve-Serves e es first (serve-done e online es first) in
        let all : (serve e es first).0.sent ≡ rs =
          sent ∙ ap (λ l. l ++ rs) (start_sent store now) in
        (rw all k, (serve-IsSaved e es store now durable).saved)

    resumes :
        (sessions : List Session) (store : S) (rt : Runtime R)
        → storage.load store ≡ found (snapshot cfg rt)
        → IsSettled rt
        → AreTimed (all_events sessions)
        → (rt' : Runtime R) × Serves e rt (all_events sessions) (run_sessions store sessions).0 rt'
          × (storage.load (run_sessions store sessions).1 ≡ found (snapshot cfg rt'))
    unfolding run_sessions
    resumes [] store rt h k t = (rt, rests, h)
    resumes ((now, es) ∷ sessions) store rt h k t =
        let w = (serve e es (start e store now)).0 in
        let (served, saved) = session-Serves store now es in
        let from_rt : Serves e rt es w.sent w.rt =
          subst (λ r. Serves e r es w.sent w.rt) (start-resumes store now rt h k) served in
        let (timed, later) = AreTimed-append es (all_events sessions) t in
        let (rt', rest, end) =
          resumes sessions w.store w.rt saved (Serves-IsSettled from_rt timed k) later in
        (rt', Serves-append from_rt rest, end)

    -- Stopped and started again between events, any number of times, the server asks of its client
    -- what it would have asked without a stop, and leaves the same runtime in the store: with a client
    -- that takes its requests, values that serialise, a store whose saves are read back, and a clock
    -- that gives a text.
    pub restarts-transparent :
        (store : S) (now : Str) (es : List (Event × Str)) (sessions : List Session)
        → AreTimed (es ++ all_events sessions)
        → let w = (serve e (es ++ all_events sessions) (start e store now)).0 in
          ((run_sessions store ((now, es) ∷ sessions)).0 ≡ w.sent)
          × (storage.load (run_sessions store ((now, es) ∷ sessions)).1 ≡ found (snapshot cfg w.rt))
    unfolding run_sessions
    restarts-transparent store now es sessions t =
        let (timed, later) = AreTimed-append es (all_events sessions) t in
        let (first, saved) = session-Serves store now es in
        let w1 = (serve e es (start e store now)).0 in
        let ready = Serves-IsSettled first timed (start-IsSettled store now) in
        let (rt', rest, end) = resumes sessions w1.store w1.rt saved ready later in
        let (whole, kept) = session-Serves store now (es ++ all_events sessions) in
        let (same, last) = Serves-unique e (Serves-append first rest) whole in
        (same, end ∙ ap (λ rt. found (snapshot cfg rt)) last)
