-- ===== src/Server/Pings.antt =====
-- The ping task of server.rs beside the loop: what the broker retains.
use aquilo_offline.Base.{
  ◌≡◌, ◌≢◌, refl, sym, Option, some, List, [], ◌∷◌, ◌++◌, Bytes, Str, Bool, Option-cases, inl, inr,
  arith, ◌∙◌, ap, unwrap_or, length, drop, drop-append_length, bytes_eq_refl, bytes_eq-false,
}
use aquilo_offline.Core.State.{to_json}
use aquilo_offline.Server.Broker.{open_conn}
use aquilo_offline.Server.Config.{Config}
use aquilo_offline.Server.Contract.{Serves, rests, connects, reads, echoes, idles}
use aquilo_offline.Server.Fulfils.{serve-Serves}
use aquilo_offline.Server.Handler.{
  Request, subscribe, at_most_once, retained, Event, conn_ack, Ending, done, failed, panicked,
  World, continue, Env, topics, on_event, start, serve,
}
use aquilo_offline.Server.Retained.{retained_from, stored, continue_done}
use aquilo_offline.Server.Routing.{new_topics-AreDistinct}
use aquilo_offline.Server.Run.{Running, ping, WithPings, quiet, own, pinged, run}
use aquilo_offline.Server.Runtime.{Runtime}

-- A ping is not retained.
stored-ping :
    {R : Type 0} (cfg : Config R) (topic : Str) (before : Option Bytes)
    → stored topic (ping cfg) before ≡ before
unfolding ping
stored-ping cfg topic before = ground arith

retained_from-pings :
    {R : Type 0} (cfg : Config R) (topic : Str) {rs ss : List Request}
    → WithPings (ping cfg) rs ss
    → (before : Option Bytes) → retained_from topic before ss ≡ retained_from topic before rs
unfolding retained_from
retained_from-pings cfg topic quiet before = refl
retained_from-pings cfg topic (own r h) before =
    retained_from-pings cfg topic h (stored topic r before)
retained_from-pings cfg topic (pinged h) before =
    rw (stored-ping cfg topic before) (retained_from-pings cfg topic h before)

module _ {A S V R : Type 0} (parse : Str → Option A) (e : Env S V R) where
  open e use {json, cfg}

  -- What a started server ends in is what the loop ends in.
  run_ends :
      (spawns : Bool) (store : S) (now : Str) (events : List (Event × Str)) (r : Running A S R)
      → run parse spawns e store now events ≡ some r
      → ((serve e events (start e store now)).0 ≡ r.world)
        × ((serve e events (start e store now)).1 ≡ r.ending)
  unfolding run
  run_ends spawns store now events r h = elim (Option-cases (open_conn parse spawns cfg)) [
    | inl refused ↦ cc (rw refused at h)
    | inr (opened, e') ↦
        let h' = rw e' at h in
        (
          ap (λ (o : Option (Running A S R)). (unwrap_or o r).world) h',
          ap (λ (o : Option (Running A S R)). (unwrap_or o r).ending) h',
        )
  ]

  -- A publish elsewhere leaves the retained `/state` alone.
  stored-elsewhere :
      (topic : Str) (payload : Bytes) (held : Option Bytes)
      → topic ≢ (topics e).state
      → stored (topics e).state (retained topic payload) held ≡ held
  stored-elsewhere topic payload held h = rw (bytes_eq-false (λ p. h (sym p))) refl

  stored-state :
      (payload : Bytes) (held : Option Bytes)
      → stored (topics e).state (retained (topics e).state payload) held ≡ some payload
  stored-state payload held = rw (bytes_eq_refl (topics e).state) refl

  -- What a new connection begins with leaves the state that it publishes, whatever was held before.
  seeded-retained :
      (held : Option Bytes) (radar state : Bytes) (rs : List Request)
      → retained_from (topics e).state held (
          retained (topics e).version cfg.firmware_version
          ∷ retained (topics e).radar_params radar
          ∷ retained (topics e).state state
          ∷ subscribe (topics e).read at_most_once
          ∷ subscribe (topics e).log at_most_once
          ∷ subscribe (topics e).connection at_most_once
          ∷ rs)
        ≡ retained_from (topics e).state (some state) rs
  unfolding retained_from
  seeded-retained held radar state rs =
      let apart = new_topics-AreDistinct cfg.receiver_id in
      rw
        (
          stored-elsewhere (topics e).version cfg.firmware_version held apart.version_state,
          stored-elsewhere (topics e).radar_params radar held apart.radar_params_state,
          stored-state state held,
        )
        refl

  -- A broker that holds the current state holds it after what the contract has the loop send.
  Serves-retained :
      {rt rt' : Runtime R} {es : List (Event × Str)} {rs : List Request} (held : Option Bytes)
      → Serves e rt es rs rt'
      → held ≡ json.to_vec (to_json json rt.current)
      → retained_from (topics e).state held rs ≡ json.to_vec (to_json json rt'.current)
  unfolding retained_from
  Serves-retained held rests h = h
  Serves-retained held (connects {rs = rs} {radar = radar} {state = state} a b k) h =
      seeded-retained held radar state rs ∙ Serves-retained (some state) k (sym b)
  Serves-retained held (reads {state = state} a b c d k) h =
      rw (stored-state state held) (Serves-retained (some state) k (sym d))
  Serves-retained held (echoes {fw = fw} a b k) h =
      let apart = (new_topics-AreDistinct cfg.receiver_id).version_state in
      rw (stored-elsewhere (topics e).version fw held apart) (Serves-retained held k h)
  Serves-retained held (idles i k) h = Serves-retained held k h

  -- From a CONNACK on, whatever the broker held before it.
  connected-retained :
      {rt rt' : Runtime R} {at : Str} {es : List (Event × Str)} {rs : List Request}
      (held : Option Bytes)
      → Serves e rt ((conn_ack, at) ∷ es) rs rt'
      → retained_from (topics e).state held rs ≡ json.to_vec (to_json json rt'.current)
  connected-retained held (connects {rs = rs} {radar = radar} {state = state} a b k) =
      seeded-retained held radar state rs ∙ Serves-retained (some state) k (sym b)
  connected-retained held (idles i k) = elim i [ ]

  continue-append :
      (x : World S R × Ending) (es fs : List (Event × Str))
      → ((w : World S R) → serve e (es ++ fs) w ≡ continue (serve e es w) (serve e fs))
      → continue x (serve e (es ++ fs)) ≡ continue (continue x (serve e es)) (serve e fs)
  continue-append (w, done) es fs h = h w
  continue-append (w, failed) es fs h = refl
  continue-append (w, panicked) es fs h = refl

  serve-append :
      (es fs : List (Event × Str)) (w : World S R)
      → serve e (es ++ fs) w ≡ continue (serve e es w) (serve e fs)
  unfolding serve
  serve-append [] fs w = refl
  serve-append ((event, now) ∷ es) fs w =
      continue-append (on_event e event now w) es fs (serve-append es fs)

  -- A server that has started and whose loop ended without an error, and any of the CONNACKs in it: a
  -- broker that keeps all that it is sent from that CONNACK on retains the current `/state`, whatever it
  -- held when it accepted the client, be it nothing after a restart, and wherever pings came between
  -- the requests of the loop. A broker that restarts once more loses it until the next CONNACK.
  pub run-connected :
      (spawns : Bool) (store : S) (now at : Str) (before after : List (Event × Str))
      (r : Running A S R) (held : Option Bytes) {ss : List Request}
      → run parse spawns e store now (before ++ (conn_ack, at) ∷ after) ≡ some r
      → r.ending ≡ done
      → WithPings
          (ping cfg)
          (drop (length (serve e before (start e store now)).0.sent) r.world.sent)
          ss
      → retained_from (topics e).state held ss ≡ json.to_vec (to_json json r.world.rt.current)
  run-connected spawns store now at before after r held h ended pings =
      let rest = (conn_ack, at) ∷ after in
      let (world, ending) = run_ends spawns store now (before ++ rest) r h in
      let old = serve e before (start e store now) in
      let split = serve-append before rest (start e store now) in
      let all_done : (continue old (serve e rest)).1 ≡ done =
        sym (ap (λ x. x.1) split) ∙ ending ∙ ended in
      let (connected, step) = continue_done e old (serve e rest) all_done in
      let last : (serve e rest old.0).1 ≡ done = rw step at all_done in
      let (rs, sent, k) = serve-Serves e rest old.0 last in
      let same : (serve e rest old.0).0 ≡ r.world = sym (ap (λ x. x.0) (split ∙ step)) ∙ world in
      let since : drop (length old.0.sent) r.world.sent ≡ rs =
        ap (λ (w : World S R). drop (length old.0.sent) w.sent) (sym same)
        ∙ ap (drop (length old.0.sent)) sent
        ∙ drop-append_length (length old.0.sent) old.0.sent rs refl in
      retained_from-pings cfg (topics e).state pings held
      ∙ ap (retained_from (topics e).state held) since
      ∙ connected-retained held k
      ∙ ap (λ (w : World S R). json.to_vec (to_json json w.rt.current)) same
