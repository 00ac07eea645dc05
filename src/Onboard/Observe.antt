-- ===== src/Onboard/Observe.antt =====
-- `observe_connection` of onboard.rs: the stand-in broker for one device connection. Each read of
-- the socket is a chunk; `accepts` says which writes succeed, and a failed one ends the connection
-- as `?` does. The clock's reading is an argument, one for each chunk, where the source reads the clock
-- for each PUBLISH and again in `maybe_finalize`. Logging is left out.
use aquilo_offline.Base.{
  ℕ, pos, F64, tenths, Bool, true, false, not, ◌&&◌, Option, none, some, List, [], ◌∷◌, ◌++◌, Bytes,
  Str, codes, length, if◌then◌else◌, unwrap_or,
}
use aquilo_offline.Base.Json.{Json}
use aquilo_offline.Core.Reading.{ReadPayload}
use aquilo_offline.Core.State.{SensorState, to_json}
use aquilo_offline.Onboard.Facts.{Facts, no_facts, apply_device_connect, apply_device_publish}
use aquilo_offline.Onboard.Output.{OnboardOptions, Disk, Session, maybe_finalize}
use aquilo_offline.Server.Topics.{new_topics}
use aquilo_offline.Wire.Decode.{Packet, connect, publish, subscribe, ping_req, disconnect, other}
use aquilo_offline.Wire.Encode
use aquilo_offline.Wire.Encode.{connack, suback, puback, pingresp}
use aquilo_offline.Wire.Stream.{Drained, push}

-- The variables of the loop, the shared session, and what was written to the socket.
pub record Observer (W R : Type 0) : Type 0 where
  pub session : Session W R
  pub buf : Bytes
  pub subscribed : Bool
  pub seeded : Bool
  pub sent : List Bytes

-- The loop goes on, has returned `Ok(())` on a DISCONNECT, or has returned an error.
pub data Status : Type 0 where
  running closed failed : Status

abbrev pub Action : Type 0 → Type 0 → Type 0
Action W R = Observer W R → Observer W R × Status

module _ {W R : Type 0} where
  abbrev pub continue : Observer W R × Status → Action W R → Observer W R × Status
  continue (o, running) b = b o
  continue (o, closed) b = (o, closed)
  continue (o, failed) b = (o, failed)

  infixl 20 ◌▸◌
  abbrev pub ◌▸◌ : Action W R → Action W R → Action W R
  ◌▸◌ a b o = continue (a o) b

  abbrev pub skip : Action W R
  skip o = (o, running)

  -- `return Ok(())`
  abbrev pub close : Action W R
  close o = (o, closed)

  -- `sock.write_all(bytes).await?`
  unfoldable pub send : (Bytes → Bool) → Bytes → Action W R
  send accepts bytes o =
      if accepts bytes then (record o { sent = o.sent ++ bytes ∷ [] }, running) else (o, failed)

pub record Env (V W R : Type 0) : Type 0 where
  pub float : F64 R
  pub json : Json V R
  pub decode : Bytes → Option ReadPayload
  pub disk : Disk W R
  pub opts : OnboardOptions
  pub accepts : Bytes → Bool

module _ {V W R : Type 0} (e : Env V W R) where
  open e use {float, json, decode, disk, opts, accepts}

  unfoldable pub default_seed_state : Str → Str → SensorState R
  default_seed_state sensor now = record {
    id = sensor;
    name = sensor;
    lvl = tenths float (pos 1502);
    pct = pos 20;
    bat = pos 83;
    lst_read = now;
    lst_empty = [];
    days_left = pos 0;
    lvl_to_full = pos 110;
    from = codes "node-4";
  }

  -- A retained PUBLISH of a payload, where it serialises.
  abbrev pub send_json : Str → Option Bytes → Action W R
  send_json topic none o = (o, failed)
  send_json topic (some payload) o = send accepts (Encode.publish topic payload true) o

  unfoldable pub radar_payload : Str → Option Bytes
  radar_payload sensor = json.to_vec (
      json.object (
        (codes "sensor", json.string sensor)
        ∷ (codes "skip", json.int (pos 9))
        ∷ (codes "repeat", json.int (pos 9))
        ∷ []))

  unfoldable pub seed_retained : Str → Str → Str → Action W R
  unfolding default_seed_state radar_payload send
  seed_retained rid firmware now o =
      let topics = new_topics rid in
      let sensor = unwrap_or o.session.facts.sensor_id rid in
      (send accepts (Encode.publish topics.version firmware true)
          ▸ send_json topics.radar_params (radar_payload sensor)
          ▸ send_json topics.state (json.to_vec (to_json json (default_seed_state sensor now))))
        o

  abbrev pub with_facts : (Facts R → Facts R) → Action W R
  with_facts f o = (record o { session = record o.session { facts = f o.session.facts } }, running)

  abbrev pub acknowledge : Option ℕ → Action W R
  acknowledge none = skip
  acknowledge (some id) = send accepts (puback id)

  abbrev pub finalize : Str → Action W R
  finalize now o = (record o { session = maybe_finalize float disk opts now o.session }, running)

  abbrev pub mark_subscribed : Action W R
  mark_subscribed o = (record o { subscribed = true }, running)

  unfoldable pub on_packet : Str → Packet → Action W R
  unfolding send
  on_packet now (connect c) = with_facts (λ f. apply_device_connect f c) ▸ send accepts connack
  on_packet now (subscribe s) =
      send accepts (suback s.packet_id (length s.topics)) ▸ mark_subscribed
  on_packet now (publish p) =
      acknowledge p.packet_id
      ▸ with_facts (λ f. apply_device_publish float json decode f p.topic p.payload now)
      ▸ finalize now
  on_packet now ping_req = send accepts pingresp
  on_packet now disconnect = close
  on_packet now (other kind) = skip

  unfoldable pub on_packets : Str → List Packet → Action W R
  unfolding on_packet
  on_packets now [] = skip
  on_packets now (p ∷ ps) = on_packet now p ▸ on_packets now ps

  abbrev pub mark_seeded : Action W R
  mark_seeded o = (record o { seeded = true }, running)

  abbrev pub seed_known : Option Str → Option Str → Str → Action W R
  seed_known (some rid) (some fw) now = seed_retained rid fw now ▸ mark_seeded
  seed_known (some rid) none now = skip
  seed_known none fw now = skip

  unfoldable pub seed_when_ready : Str → Action W R
  unfolding seed_retained
  seed_when_ready now o =
      if o.subscribed && not o.seeded
      then seed_known o.session.facts.receiver_id o.session.facts.firmware now o
      else (o, running)

  abbrev pub take_buffer : Drained → Observer W R → Observer W R
  take_buffer d o = record o { buf = d.buf }

  -- One turn of the loop, on a chunk that is not empty.
  unfoldable pub on_chunk : Bytes → Str → Action W R
  unfolding on_packets seed_when_ready push
  on_chunk chunk now o =
      let d = push o.buf chunk in (on_packets now d.out ▸ seed_when_ready now) (take_buffer d o)

  unfoldable pub observe : List (Bytes × Str) → Action W R
  unfolding on_chunk
  observe [] = skip
  observe ((chunk, now) ∷ chunks) = on_chunk chunk now ▸ observe chunks

  -- The start of a connection: no facts, nothing buffered; the flag and the disk are shared.
  unfoldable pub connected : Bool → W → Observer W R
  unfolding no_facts
  connected written w = record {
    session = record { facts = no_facts; written = written; disk = w };
    buf = [];
    subscribed = false;
    seeded = false;
    sent = [];
  }
