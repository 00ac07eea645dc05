-- ===== src/Server/Serve.antt =====
-- The serve loop of server.rs, and the state that the broker retains.
use aquilo_offline.Base.{
  ◌≡◌, refl, Option, none, some, List, [], ◌∷◌, Bytes, Str, bytes_eq, Bool-cases, inl, inr,
}
use aquilo_offline.Core.Reading.{Reading, Parsed, ok, err, parse_reading}
use aquilo_offline.Core.State.{to_json}
use aquilo_offline.Server.Firmware.{parse_firmware}
use aquilo_offline.Server.Handler.{
  done, World, ◌▸◌, retained, publish_json, read_or_skip, echo_firmware, request, Event, conn_ack,
  incoming, ignored, poll_error, Env, topics, publish_state, radar_params, seed_retained,
  fold_reading, publish_current, handle_read, handle_publish, subscribe_all, on_event, serve,
}
use aquilo_offline.Server.Routing.{new_topics-AreDistinct}
use aquilo_offline.Server.Retained.{
  IsPublished, Quiet, Quiet-skip, Quiet-retained, continue_done, Quiet-seq, Quiet-publish_json,
  Quiet-subscribe_all, Quiet-IsPublished, publish_json-IsPublished,
}

module _ {S V R : Type 0} (e : Env S V R) where
  open e use {float, json, parse_ts, decode, storage, cfg, link}

  publish_current-IsPublished :
      (w : World S R) → (publish_current e w).1 ≡ done → IsPublished e (publish_current e w).0
  unfolding publish_current publish_state
  publish_current-IsPublished w h = publish_json-IsPublished e w _ refl h

  handle_read-IsPublished :
      (reading : Reading R) (now : Str) (w : World S R)
      → (handle_read e reading now w).1 ≡ done
      → IsPublished e (handle_read e reading now w).0
  unfolding handle_read
  handle_read-IsPublished reading now w h =
      let (ended, step) = continue_done e (fold_reading e reading now w) (publish_current e) h in
      rw step (publish_current-IsPublished (fold_reading e reading now w).0 (rw step at h))

  read_or_skip-IsPublished :
      (parsed : Parsed (Reading R)) (now : Str) (w : World S R)
      → (read_or_skip e parsed now w).1 ≡ done
      → IsPublished e w
      → IsPublished e (read_or_skip e parsed now w).0
  read_or_skip-IsPublished (ok reading) now w h p = handle_read-IsPublished reading now w h
  read_or_skip-IsPublished (err reason) now w h p = p

  Quiet-echo_firmware : (fw : Option Str) → Quiet e (echo_firmware e fw)
  Quiet-echo_firmware none = Quiet-skip e
  Quiet-echo_firmware (some fw) = record {
    at =
        (Quiet-retained e (topics e).version fw
          (new_topics-AreDistinct cfg.receiver_id).version_state).at;
  }

  handle_publish-IsPublished :
      (topic : Str) (payload : Bytes) (now : Str) (w : World S R)
      → (handle_publish e topic payload now w).1 ≡ done
      → IsPublished e w
      → IsPublished e (handle_publish e topic payload now w).0
  unfolding handle_publish
  handle_publish-IsPublished topic payload now w =
      elim (Bool-cases (bytes_eq topic (topics e).read)) [
        | inl e1 ↦ rw e1 (read_or_skip-IsPublished (parse_reading float decode payload) now w)
        | inr e1 ↦ rw e1 (elim (Bool-cases (bytes_eq topic (topics e).log)) [
          | inl e2 ↦
              rw e2 (Quiet-IsPublished e (Quiet-echo_firmware (parse_firmware json payload)) w)
          | inr e2 ↦ rw e2 (Quiet-IsPublished e (Quiet-skip e) w)
        ])
      ]

  seed_retained-IsPublished :
      (w : World S R)
      → (seed_retained e w.rt.current w).1 ≡ done
      → IsPublished e (seed_retained e w.rt.current w).0
  unfolding seed_retained publish_state
  seed_retained-IsPublished w h =
      let distinct = new_topics-AreDistinct cfg.receiver_id in
      let first =
        request link (retained (topics e).version cfg.firmware_version)
        ▸ publish_json e (topics e).radar_params (radar_params e) in
      let quiet : Quiet e first =
        Quiet-seq e
          (Quiet-retained e (topics e).version cfg.firmware_version distinct.version_state)
          (Quiet-publish_json e (topics e).radar_params (radar_params e)
            distinct.radar_params_state) in
      let (ended, step) = continue_done e (first w) (publish_state e w.rt.current) h in
      let (same, kept) = quiet.at w ended in
      rw step (
        publish_json-IsPublished e (first w).0 (json.to_vec (to_json json w.rt.current))
          (rw same refl) (rw step at h))

  conn_ack-IsPublished :
      (now : Str) (w : World S R)
      → (on_event e conn_ack now w).1 ≡ done
      → IsPublished e (on_event e conn_ack now w).0
  unfolding on_event
  conn_ack-IsPublished now w h =
      let ts = (topics e).read ∷ (topics e).log ∷ (topics e).connection ∷ [] in
      let subs = subscribe_all e ts in
      let (ended, step) = continue_done e (seed_retained e w.rt.current w) subs h in
      rw step (
        Quiet-IsPublished e (Quiet-subscribe_all e ts) (seed_retained e w.rt.current w).0
          (rw step at h) (seed_retained-IsPublished w ended))

  on_event-IsPublished :
      (event : Event) (now : Str) (w : World S R)
      → (on_event e event now w).1 ≡ done
      → IsPublished e w
      → IsPublished e (on_event e event now w).0
  unfolding on_event
  on_event-IsPublished conn_ack now w h p = conn_ack-IsPublished now w h
  on_event-IsPublished (incoming topic payload) now w h p =
      handle_publish-IsPublished topic payload now w h p
  on_event-IsPublished ignored now w h p = p
  on_event-IsPublished poll_error now w h p = p

  serve-IsPublished :
      (events : List (Event × Str)) (w : World S R)
      → (serve e events w).1 ≡ done
      → IsPublished e w
      → IsPublished e (serve e events w).0
  unfolding serve
  serve-IsPublished [] w h p = p
  serve-IsPublished ((event, now) ∷ events) w h p =
      let (ended, step) = continue_done e (on_event e event now w) (serve e events) h in
      rw step (
        serve-IsPublished events (on_event e event now w).0 (rw step at h)
          (on_event-IsPublished event now w ended p))

  -- Once the client is connected, the broker retains the current state: after a CONNACK and any
  -- further events, as long as no error ends the loop, the last retained payload sent on the state
  -- topic is the current `/state`, serialised.
  pub serve-connected :
      (now : Str) (events : List (Event × Str)) (w : World S R)
      → (serve e ((conn_ack, now) ∷ events) w).1 ≡ done
      → IsPublished e (serve e ((conn_ack, now) ∷ events) w).0
  unfolding serve
  serve-connected now events w h =
      let (ended, step) = continue_done e (on_event e conn_ack now w) (serve e events) h in
      rw step (
        serve-IsPublished events (on_event e conn_ack now w).0 (rw step at h)
          (conn_ack-IsPublished now w ended))
