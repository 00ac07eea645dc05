-- ===== src/Server/Liveness.antt =====
-- How the serve loop of server.rs ends.
use aquilo_offline.Base.{
  ◌≡◌, refl, true, Bool-cases, Option, none, some, List, [], ◌∷◌, Bytes, Str, bytes_eq, inl, inr,
  is_some,
}
use aquilo_offline.Core.Battery.{default_points}
use aquilo_offline.Core.Reading.{Reading, Parsed, ok, err, parse_reading}
use aquilo_offline.Core.State.{SensorState, to_json}
use aquilo_offline.Server.Firmware.{parse_firmware}
use aquilo_offline.Server.Handler.{
  Request, Ending, done, failed, panicked, World, Action, continue, skip, request, Event, conn_ack,
  incoming, ignored, poll_error, Env, topics, retained, publish_json, read_or_skip, echo_firmware,
  ◌▸◌, subscribe, at_most_once, publish_state, radar_params, seed_retained, fold_reading,
  publish_current, handle_read, handle_publish, subscribe_all, on_event, serve,
}
use aquilo_offline.Server.History.{default-percent}
use aquilo_offline.Server.Transition.{apply_reading-Applied}

module _ {S V R : Type 0} (e : Env S V R) where
  open e use {float, json, parse_ts, decode, storage, cfg, link}

  -- The client takes every request, and every value serialises.
  pub record IsOnline : Type 0 where
    pub takes : (r : Request) → link r ≡ true
    pub serialises : (v : V) → is_some (json.to_vec v) ≡ true

  -- An action that ends well from every state.
  record Ends (a : Action S R) : Type 0 where
    at : (w : World S R) → (a w).1 ≡ done

  Ends-skip : Ends skip
  Ends-skip = record { at = λ w. refl }

  Ends-continue :
      (r : World S R × Ending) {b : Action S R} → r.1 ≡ done → Ends b → (continue r b).1 ≡ done
  Ends-continue (w, done) h kb = kb.at w
  Ends-continue (w, failed) h kb = h
  Ends-continue (w, panicked) h kb = h

  Ends-seq : {a b : Action S R} → Ends a → Ends b → Ends (a ▸ b)
  Ends-seq {a} ka kb = record { at = λ w. Ends-continue (a w) (ka.at w) kb }

  Ends-fold_reading : (reading : Reading R) (now : Str) → Ends (fold_reading e reading now)
  unfolding fold_reading
  Ends-fold_reading reading now = record {
    at = λ w.
        let (bat, eq) = default-percent float reading.battery_mv in
        let (rt, step, applied) =
          apply_reading-Applied float parse_ts w.rt cfg default_points reading now eq in
        rw (step, fold_reading) refl;
  }

module _ {S V R : Type 0} (e : Env S V R) (online : IsOnline e) where
  open e use {float, json, parse_ts, decode, storage, cfg, link}

  Ends-request : (r : Request) → Ends e (request link r)
  unfolding request
  Ends-request r = record { at = λ w. rw (online.takes r) refl }

  Ends-publish_json :
      (topic : Str) (payload : Option Bytes)
      → is_some payload ≡ true
      → Ends e (publish_json e topic payload)
  Ends-publish_json topic none h = cc
  Ends-publish_json topic (some payload) h = record {
    at = (Ends-request (retained topic payload)).at;
  }

  Ends-publish_state : (state : SensorState R) → Ends e (publish_state e state)
  unfolding publish_state
  Ends-publish_state state = record {
    at = λ w. (Ends-publish_json (topics e).state _ (online.serialises (to_json json state))).at w;
  }

  Ends-subscribe_all : (ts : List Str) → Ends e (subscribe_all e ts)
  unfolding subscribe_all
  Ends-subscribe_all [] = Ends-skip e
  Ends-subscribe_all (t ∷ ts) =
      Ends-seq e (Ends-request (subscribe t at_most_once)) (Ends-subscribe_all ts)

  Ends-handle_read : (reading : Reading R) (now : Str) → Ends e (handle_read e reading now)
  unfolding handle_read publish_current
  Ends-handle_read reading now =
      Ends-seq e (Ends-fold_reading e reading now)
        (record { at = λ w. (Ends-publish_state w.rt.current).at w })

  Ends-read_or_skip : (parsed : Parsed (Reading R)) (now : Str) → Ends e (read_or_skip e parsed now)
  Ends-read_or_skip (ok reading) now = record { at = (Ends-handle_read reading now).at }
  Ends-read_or_skip (err reason) now = Ends-skip e

  Ends-echo_firmware : (fw : Option Str) → Ends e (echo_firmware e fw)
  Ends-echo_firmware none = Ends-skip e
  Ends-echo_firmware (some fw) = record { at = (Ends-request (retained (topics e).version fw)).at }

  Ends-handle_publish :
      (topic : Str) (payload : Bytes) (now : Str) → Ends e (handle_publish e topic payload now)
  unfolding handle_publish
  Ends-handle_publish topic payload now = elim (Bool-cases (bytes_eq topic (topics e).read)) [
    | inl e1 ↦ rw e1 (Ends-read_or_skip (parse_reading float decode payload) now)
    | inr e1 ↦ rw e1 (elim (Bool-cases (bytes_eq topic (topics e).log)) [
      | inl e2 ↦ rw e2 (Ends-echo_firmware (parse_firmware json payload))
      | inr e2 ↦ rw e2 (Ends-skip e)
    ])
  ]

  Ends-seed_retained : (state : SensorState R) → Ends e (seed_retained e state)
  unfolding seed_retained radar_params
  Ends-seed_retained state =
      Ends-seq e
        (Ends-seq e (Ends-request (retained (topics e).version cfg.firmware_version))
          (Ends-publish_json (topics e).radar_params (radar_params e) (online.serialises _)))
        (Ends-publish_state state)

  Ends-on_event : (event : Event) (now : Str) → Ends e (on_event e event now)
  unfolding on_event
  Ends-on_event conn_ack now = record {
    at = λ w.
        let subs = (topics e).read ∷ (topics e).log ∷ (topics e).connection ∷ [] in
        (Ends-seq e (Ends-seed_retained w.rt.current) (Ends-subscribe_all subs)).at w;
  }
  Ends-on_event (incoming topic payload) now = record {
    at = (Ends-handle_publish topic payload now).at;
  }
  Ends-on_event ignored now = record { at = λ w. refl }
  Ends-on_event poll_error now = record { at = λ w. refl }

  -- While the client takes its requests and values serialise, the loop gets through any events: no
  -- payload on any topic, however malformed, ends it by an error or a panic.
  pub serve-done : (events : List (Event × Str)) (w : World S R) → (serve e events w).1 ≡ done
  unfolding serve
  serve-done [] w = refl
  serve-done ((event, now) ∷ events) w =
      Ends-continue e (on_event e event now w) ((Ends-on_event event now).at w)
        (record { at = serve-done events })
