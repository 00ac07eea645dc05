-- ===== src/Server/Handler.antt =====
-- The serve loop of aquilo-server/src/server.rs: one event of the MQTT client at a time. What the
-- client is asked to do is recorded in order; `link` says which requests it accepts, and a refused
-- one is the error that `?` passes on. Logging is left out.
use aquilo_offline.Base.{
  ℤ, F64, Bool, true, Option, none, some, List, [], ◌∷◌, ◌++◌, Bytes, Str, codes, bytes_eq,
  if◌then◌else◌,
}
use aquilo_offline.Base.Json.{Json}
use aquilo_offline.Core.Battery.{default_points}
use aquilo_offline.Core.Reading.{Reading, ReadPayload, Parsed, ok, err, parse_reading}
use aquilo_offline.Core.State.{SensorState, to_json}
use aquilo_offline.Server.Config.{Config}
use aquilo_offline.Server.Firmware.{parse_firmware}
use aquilo_offline.Server.Runtime.{Store, Runtime, load_runtime, persist, apply_reading}
use aquilo_offline.Server.Topics.{Topics, new_topics}

pub data QoS : Type 0 where
  at_most_once at_least_once : QoS

pub record Message : Type 0 where
  pub topic : Str
  pub qos : QoS
  pub retain : Bool
  pub payload : Bytes

pub data Request : Type 0 where
  publish : Message → Request
  subscribe : Str → QoS → Request

-- How an action ends: `Ok(())`, an error that `?` passes on, or a panic.
pub data Ending : Type 0 where
  done failed panicked : Ending

pub record World (S R : Type 0) : Type 0 where
  pub rt : Runtime R
  pub store : S
  pub sent : List Request

abbrev pub Action : Type 0 → Type 0 → Type 0
Action S R = World S R → World S R × Ending

module _ {S R : Type 0} where
  -- `a?; b`
  abbrev pub continue : World S R × Ending → Action S R → World S R × Ending
  continue (w, done) b = b w
  continue (w, failed) b = (w, failed)
  continue (w, panicked) b = (w, panicked)

  infixl 20 ◌▸◌
  abbrev pub ◌▸◌ : Action S R → Action S R → Action S R
  ◌▸◌ a b w = continue (a w) b

  abbrev pub skip : Action S R
  skip w = (w, done)

  -- A request that the client accepts is sent.
  unfoldable pub request : (Request → Bool) → Request → Action S R
  request link r w = if link r then (record w { sent = w.sent ++ r ∷ [] }, done) else (w, failed)

-- The broker connection's events, as `eventloop.poll()` gives them.
pub data Event : Type 0 where
  conn_ack : Event
  incoming : Str → Bytes → Event
  ignored poll_error : Event

-- What the loop is run with: the libraries, and what `run` sets up.
pub record Env (S V R : Type 0) : Type 0 where
  pub float : F64 R
  pub json : Json V R
  pub parse_ts : Str → Option ℤ
  pub decode : Bytes → Option ReadPayload
  pub storage : Store S R
  pub cfg : Config R
  pub link : Request → Bool

abbrev pub retained : Str → Bytes → Request
retained topic payload =
    publish (record { topic = topic; qos = at_least_once; retain = true; payload = payload })

module _ {S V R : Type 0} (e : Env S V R) where
  open e use {float, json, parse_ts, decode, storage, cfg, link}

  abbrev pub topics : Topics
  topics = new_topics cfg.receiver_id

  -- A payload that does not serialise is an error too.
  abbrev pub publish_json : Str → Option Bytes → Action S R
  publish_json topic none w = (w, failed)
  publish_json topic (some payload) w = request link (retained topic payload) w

  unfoldable pub publish_state : SensorState R → Action S R
  unfolding request
  publish_state state = publish_json topics.state (json.to_vec (to_json json state))

  unfoldable pub radar_params : Option Bytes
  radar_params = json.to_vec (
      json.object (
        (codes "sensor", json.string cfg.sensor_id)
        ∷ (codes "skip", json.int cfg.radar_skip)
        ∷ (codes "repeat", json.int cfg.radar_repeat)
        ∷ []))

  unfoldable pub seed_retained : SensorState R → Action S R
  unfolding publish_state radar_params request
  seed_retained state =
      request link (retained topics.version cfg.firmware_version)
      ▸ publish_json topics.radar_params radar_params
      ▸ publish_state state

  -- The first half of `handle_read`: the transition, and the snapshot that is saved.
  unfoldable pub fold_reading : Reading R → Str → Action S R
  fold_reading reading now w =
      elim (apply_reading float parse_ts w.rt cfg default_points reading now) [
        | none ↦ (w, panicked)
        | some rt ↦
            (record { rt = rt; store = persist storage w.store cfg rt; sent = w.sent }, done)
      ]

  unfoldable pub publish_current : Action S R
  unfolding publish_state
  publish_current w = publish_state w.rt.current w

  unfoldable pub handle_read : Reading R → Str → Action S R
  unfolding fold_reading publish_current
  handle_read reading now = fold_reading reading now ▸ publish_current

  abbrev pub read_or_skip : Parsed (Reading R) → Str → Action S R
  read_or_skip (ok reading) now = handle_read reading now
  read_or_skip (err reason) now = skip

  abbrev pub echo_firmware : Option Str → Action S R
  echo_firmware none = skip
  echo_firmware (some fw) = request link (retained topics.version fw)

  unfoldable pub handle_publish : Str → Bytes → Str → Action S R
  unfolding handle_read request
  handle_publish topic payload now =
      if bytes_eq topic topics.read
      then read_or_skip (parse_reading float decode payload) now
      else if bytes_eq topic topics.log
      then echo_firmware (parse_firmware json payload)
      else skip

  unfoldable pub subscribe_all : List Str → Action S R
  unfolding request
  subscribe_all [] = skip
  subscribe_all (t ∷ ts) = request link (subscribe t at_most_once) ▸ subscribe_all ts

  -- One turn of the loop of `run`, at the clock's reading `now`.
  unfoldable pub on_event : Event → Str → Action S R
  unfolding seed_retained subscribe_all handle_publish
  on_event conn_ack now w =
      (seed_retained w.rt.current
          ▸ subscribe_all (topics.read ∷ topics.log ∷ topics.connection ∷ []))
        w
  on_event (incoming topic payload) now w = handle_publish topic payload now w
  on_event ignored now w = (w, done)
  on_event poll_error now w = (w, done)

  -- The loop, over the events that arrive and their times. It ends early only by an error.
  unfoldable pub serve : List (Event × Str) → Action S R
  unfolding on_event
  serve [] = skip
  serve ((event, now) ∷ events) = on_event event now ▸ serve events

  -- The start of `run`, before the first event: the runtime is loaded and saved at once.
  unfoldable pub start : S → Str → World S R
  unfolding load_runtime persist
  start store now =
      let rt = load_runtime storage cfg store now in
      record { rt = rt; store = persist storage store cfg rt; sent = [] }
