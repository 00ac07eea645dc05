-- ===== src/Server/Keeps.antt =====
-- Properties of the world that the handlers of server.rs keep.
use aquilo_offline.Base.{
  ◌≡◌, refl, true, ◌⊎◌, All, ◌++◌, Option, none, some, List, [], ◌∷◌, Bytes, Str, bytes_eq,
  Bool-cases, inl, inr,
}
use aquilo_offline.Core.Reading.{Reading, Parsed, ok, err, parse_reading}
use aquilo_offline.Core.State.{SensorState, to_json}
use aquilo_offline.Server.Firmware.{parse_firmware}
use aquilo_offline.Server.Handler.{
  Request, Ending, done, failed, panicked, World, Action, continue, skip, request, Event, conn_ack,
  incoming, ignored, poll_error, Env, topics, retained, publish_json, read_or_skip, echo_firmware,
  ◌▸◌, subscribe, publish, at_most_once, at_least_once, publish_state, seed_retained, fold_reading,
  publish_current, handle_read, handle_publish, subscribe_all, on_event, serve,
}
use aquilo_offline.Server.Topics.{Topics}

-- The topics that the loop subscribes to, and those that it publishes on.
abbrev pub IsRead : Topics → Str → Type 0
IsRead t topic = (topic ≡ t.read) ⊎ (topic ≡ t.log) ⊎ (topic ≡ t.connection)

abbrev pub IsWritten : Topics → Str → Type 0
IsWritten t topic = (topic ≡ t.version) ⊎ (topic ≡ t.radar_params) ⊎ (topic ≡ t.state)

-- A request that the loop may make: a subscription to a topic of the device at QoS 0, or a retained
-- message at QoS 1.
abbrev pub IsMade : Topics → Request → Type 0
IsMade t (subscribe topic qos) = IsRead t topic × (qos ≡ at_most_once)
IsMade t (publish m) = IsWritten t m.topic × (m.qos ≡ at_least_once) × (m.retain ≡ true)

module _ {S V R : Type 0} (e : Env S V R) (P : World S R → Type 0)
    (stable : (w : World S R) (r : Request)
      → IsMade (topics e) r
      → P w
      → P (record w { sent = w.sent ++ r ∷ [] })) where
  open e use {float, json, parse_ts, decode, storage, cfg, link}

  -- An action that keeps the property, however it ends.
  pub record Keeps (a : Action S R) : Type 0 where
    pub at : (w : World S R) → P w → P (a w).0

  Keeps-skip : Keeps skip
  Keeps-skip = record { at = λ w h. h }

  Keeps-request : (r : Request) → IsMade (topics e) r → Keeps (request link r)
  unfolding request
  Keeps-request r made = elim (Bool-cases (link r)) [
    | inl taken ↦ record { at = λ w. rw taken (λ h. stable w r made h) }
    | inr refused ↦ record { at = λ w. rw refused (λ h. h) }
  ]

  Keeps-continue : (r : World S R × Ending) {b : Action S R} → P r.0 → Keeps b → P (continue r b).0
  Keeps-continue (w, done) h kb = kb.at w h
  Keeps-continue (w, failed) h kb = h
  Keeps-continue (w, panicked) h kb = h

  Keeps-seq : {a b : Action S R} → Keeps a → Keeps b → Keeps (a ▸ b)
  Keeps-seq {a} ka kb = record { at = λ w h. Keeps-continue (a w) (ka.at w h) kb }

  Keeps-retained :
      (topic : Str) (payload : Bytes)
      → IsWritten (topics e) topic
      → Keeps (request link (retained topic payload))
  Keeps-retained topic payload h = Keeps-request (retained topic payload) (h, refl, refl)

  Keeps-publish_json :
      (topic : Str) (payload : Option Bytes)
      → IsWritten (topics e) topic
      → Keeps (publish_json e topic payload)
  Keeps-publish_json topic none h = record { at = λ w k. k }
  Keeps-publish_json topic (some payload) h = record { at = (Keeps-retained topic payload h).at }

  Keeps-publish_state : (state : SensorState R) → Keeps (publish_state e state)
  unfolding publish_state
  Keeps-publish_state state = record {
    at = λ w.
        (Keeps-publish_json (topics e).state (json.to_vec (to_json json state)) (inr (inr refl))).at
          w;
  }

  Keeps-subscribe_all : (ts : List Str) → All (IsRead (topics e)) ts → Keeps (subscribe_all e ts)
  unfolding subscribe_all
  Keeps-subscribe_all [] h = Keeps-skip
  Keeps-subscribe_all (t ∷ ts) h =
      Keeps-seq (Keeps-request (subscribe t at_most_once) (h.0, refl)) (Keeps-subscribe_all ts h.1)

  Keeps-echo_firmware : (fw : Option Str) → Keeps (echo_firmware e fw)
  Keeps-echo_firmware none = Keeps-skip
  Keeps-echo_firmware (some fw) = record {
    at = (Keeps-retained (topics e).version fw (inl refl)).at;
  }

  -- What the handlers are made of, and where their topics stand among those that are allowed.
  ruleset keeps_rules = (
    Keeps-skip, Keeps-seq, Keeps-retained, Keeps-publish_json, Keeps-publish_state,
    Keeps-subscribe_all, inl, inr, refl,
  )

  Keeps-seed_retained : (state : SensorState R) → Keeps (seed_retained e state)
  unfolding seed_retained
  Keeps-seed_retained state = search keeps_rules

  pub Keeps-conn_ack : (now : Str) → Keeps (on_event e conn_ack now)
  unfolding on_event
  Keeps-conn_ack now = record {
    at = λ w.
        let subs = (topics e).read ∷ (topics e).log ∷ (topics e).connection ∷ [] in
        (Keeps-seq (Keeps-seed_retained w.rt.current)
            (Keeps-subscribe_all subs (inl refl, (inr (inl refl), (inr (inr refl), tt))))).at
          w;
  }

  module _
      (folds : (reading : Reading R) (now : Str) (w : World S R)
        → P w
        → P (fold_reading e reading now w).0) where
    Keeps-fold_reading : (reading : Reading R) (now : Str) → Keeps (fold_reading e reading now)
    Keeps-fold_reading reading now = record { at = folds reading now }

    Keeps-handle_read : (reading : Reading R) (now : Str) → Keeps (handle_read e reading now)
    unfolding handle_read publish_current
    Keeps-handle_read reading now =
        Keeps-seq (Keeps-fold_reading reading now)
          (record { at = λ w. (Keeps-publish_state w.rt.current).at w })

    Keeps-read_or_skip :
        (parsed : Parsed (Reading R)) (now : Str) → Keeps (read_or_skip e parsed now)
    Keeps-read_or_skip (ok reading) now = record { at = (Keeps-handle_read reading now).at }
    Keeps-read_or_skip (err reason) now = Keeps-skip

    Keeps-handle_publish :
        (topic : Str) (payload : Bytes) (now : Str) → Keeps (handle_publish e topic payload now)
    unfolding handle_publish
    Keeps-handle_publish topic payload now = elim (Bool-cases (bytes_eq topic (topics e).read)) [
      | inl e1 ↦ rw e1 (Keeps-read_or_skip (parse_reading float decode payload) now)
      | inr e1 ↦ rw e1 (elim (Bool-cases (bytes_eq topic (topics e).log)) [
        | inl e2 ↦ rw e2 (Keeps-echo_firmware (parse_firmware json payload))
        | inr e2 ↦ rw e2 Keeps-skip
      ])
    ]

    Keeps-on_event : (event : Event) (now : Str) → Keeps (on_event e event now)
    unfolding on_event
    Keeps-on_event conn_ack now = Keeps-conn_ack now
    Keeps-on_event (incoming topic payload) now = record {
      at = (Keeps-handle_publish topic payload now).at;
    }
    Keeps-on_event ignored now = record { at = λ w h. h }
    Keeps-on_event poll_error now = record { at = λ w h. h }

    -- A property of the world that the requests keep, and that a reading keeps, holds through
    -- any events, however the loop ends.
    pub serve-Keeps : (events : List (Event × Str)) (w : World S R) → P w → P (serve e events w).0
    unfolding serve
    serve-Keeps [] w h = h
    serve-Keeps ((event, now) ∷ events) w h =
        Keeps-continue (on_event e event now w) ((Keeps-on_event event now).at w h)
          (record { at = serve-Keeps events })
