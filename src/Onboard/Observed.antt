-- ===== src/Onboard/Observed.antt =====
-- What `observe_connection` of onboard.rs learns: a fold over the packets and their times, in which
-- sockets, replies, chunks and the seeding of the device have no part.
use mathlib.Core.List.{map, map-append, flatten}
use aquilo_offline.Base.{
  ◌≡◌, refl, sym, ◌∙◌, ap, true, not, ◌&&◌, Option, none, some, List, [], ◌∷◌, ◌++◌, Bytes, Str,
  Bool-cases, inl, inr, ℕ, length, unwrap_or,
}
use aquilo_offline.Onboard.Facts.{Facts, apply_device_connect, apply_device_publish}
use aquilo_offline.Onboard.Observe.{
  Observer, running, Action, ◌▸◌, send, Env, acknowledge, finalize, with_facts, skip, send_json,
  mark_subscribed, default_seed_state, radar_payload, seed_retained, mark_seeded, seed_known,
  seed_when_ready, take_buffer, on_packet, on_packets, on_chunk, observe,
}
use aquilo_offline.Onboard.Output.{Session, maybe_finalize}
use aquilo_offline.Server.Topics.{new_topics}
use aquilo_offline.Core.State.{to_json}
use aquilo_offline.Wire.Encode
use aquilo_offline.Onboard.Writing.{continue_running}
use aquilo_offline.Wire.Chunks.{push_all, push_all-wire, wire, packets, FitFrames}
use aquilo_offline.Wire.Decode.{Packet, connect, publish, subscribe, ping_req, disconnect, other}
use aquilo_offline.Wire.Encode.{connack, suback, puback, pingresp}
use aquilo_offline.Wire.Stream.{next_frame, incomplete, push}

-- The packets that come out of chunks, each with the time of the chunk that completes it.
unfoldable pub timed : Bytes → List (Bytes × Str) → List (Packet × Str)
timed buf [] = []
timed buf ((chunk, now) ∷ chunks) =
    let d = push buf chunk in map (λ p. (p, now)) d.out ++ timed d.buf chunks

abbrev pub bytes_of : List (Bytes × Str) → List Bytes
bytes_of chunks = map (λ c. c.0) chunks

map-timed :
    (now : Str) (ps : List Packet) → map (λ (x : Packet × Str). x.0) (map (λ p. (p, now)) ps) ≡ ps
map-timed now [] = refl
map-timed now (p ∷ ps) = ap (λ l. p ∷ l) (map-timed now ps)

timed_packets :
    (buf : Bytes) (chunks : List (Bytes × Str))
    → map (λ x. x.0) (timed buf chunks) ≡ (push_all buf (bytes_of chunks)).out
unfolding timed push_all
timed_packets buf [] = refl
timed_packets buf ((chunk, now) ∷ chunks) =
    let d = push buf chunk in
    map-append (λ x. x.0) (map (λ p. (p, now)) d.out) (timed d.buf chunks)
    ∙ rw (map-timed now d.out, timed_packets d.buf chunks) refl

-- However encoded frames are cut, the packets are theirs.
pub timed-wire :
    (fs : List (ℕ × Bytes)) (tail : Bytes) (chunks : List (Bytes × Str))
    → FitFrames fs
    → next_frame tail ≡ incomplete
    → flatten (bytes_of chunks) ≡ wire fs ++ tail
    → map (λ x. x.0) (timed [] chunks) ≡ packets fs
timed-wire fs tail chunks fit short split =
    timed_packets [] chunks
    ∙ ap (λ d. d.out) (push_all-wire fs tail (bytes_of chunks) fit short split)

module _ {V W R : Type 0} (e : Env V W R) where
  open e use {float, json, decode, disk, opts, accepts}

  -- What a packet means for the session.
  unfoldable pub learn_packet : Packet × Str → Session W R → Session W R
  learn_packet (connect c, now) s = record s { facts = apply_device_connect s.facts c }
  learn_packet (publish p, now) s =
      maybe_finalize float disk opts now
        (record s { facts = apply_device_publish float json decode s.facts p.topic p.payload now })
  learn_packet (_, now) s = s

  unfoldable pub learn_packets : List (Packet × Str) → Session W R → Session W R
  unfolding learn_packet
  learn_packets [] s = s
  learn_packets (x ∷ xs) s = learn_packets xs (learn_packet x s)

  pub learn_packets-append :
      (xs ys : List (Packet × Str)) (s : Session W R)
      → learn_packets (xs ++ ys) s ≡ learn_packets ys (learn_packets xs s)
  unfolding learn_packets
  learn_packets-append [] ys s = refl
  learn_packets-append (x ∷ xs) ys s = learn_packets-append xs ys (learn_packet x s)

  -- An action that, where the connection goes on, changes the session by this and keeps the buffer.
  record Means (a : Action W R) (f : Session W R → Session W R) : Type 0 where
    at :
        (o : Observer W R)
        → (a o).1 ≡ running
        → ((a o).0.session ≡ f o.session) × ((a o).0.buf ≡ o.buf)

  Means-seq :
      {a b : Action W R} {f g : Session W R → Session W R}
      → Means a f
      → Means b g
      → Means (a ▸ b) (λ s. g (f s))
  Means-seq {a} {b} {f} {g} ka kb = record {
    at = λ o h.
        let (begun, step) = continue_running e (a o) b h in
        let (session, buf) = ka.at o begun in
        let (session', buf') = kb.at (a o).0 (rw step at h) in
        rw step (session' ∙ ap g session, buf' ∙ buf);
  }

  Means-skip : Means skip (λ s. s)
  Means-skip = record { at = λ o h. (refl, refl) }

  Means-send : (bytes : Bytes) → Means (send accepts bytes) (λ s. s)
  unfolding send
  Means-send bytes = elim (Bool-cases (accepts bytes)) [
    | inl taken ↦ record { at = λ o. rw taken (λ h. (refl, refl)) }
    | inr refused ↦ record { at = λ o. rw refused (λ h. cc) }
  ]

  Means-send_json :
      (topic : Str) (payload : Option Bytes) → Means (send_json e topic payload) (λ s. s)
  Means-send_json topic none = record { at = λ o h. cc }
  Means-send_json topic (some payload) = record { at = (Means-send _).at }

  Means-acknowledge : (id : Option ℕ) → Means (acknowledge e id) (λ s. s)
  Means-acknowledge none = Means-skip
  Means-acknowledge (some id) = record { at = (Means-send (puback id)).at }

  Means-facts :
      (f : Facts R → Facts R) → Means (with_facts e f) (λ s. record s { facts = f s.facts })
  Means-facts f = record { at = λ o h. (refl, refl) }

  Means-on_packet : (now : Str) (p : Packet) → Means (on_packet e now p) (learn_packet (p, now))
  unfolding on_packet learn_packet
  Means-on_packet now (connect c) =
      Means-seq (Means-facts (λ f. apply_device_connect f c)) (Means-send connack)
  Means-on_packet now (subscribe s) =
      Means-seq {b = mark_subscribed e} {g = λ t. t}
        (Means-send (suback s.packet_id (length s.topics))) (record { at = λ o h. (refl, refl) })
  Means-on_packet now (publish p) =
      Means-seq {b = finalize e now} {g = maybe_finalize float disk opts now}
        (Means-seq (Means-acknowledge p.packet_id)
          (Means-facts (λ f. apply_device_publish float json decode f p.topic p.payload now)))
        (record { at = λ o h. (refl, refl) })
  Means-on_packet now ping_req = record { at = (Means-send pingresp).at }
  Means-on_packet now disconnect = record { at = λ o h. cc }
  Means-on_packet now (other kind) = record { at = λ o h. (refl, refl) }

  Means-on_packets :
      (now : Str) (ps : List Packet)
      → Means (on_packets e now ps) (learn_packets (map (λ p. (p, now)) ps))
  unfolding on_packets learn_packets
  Means-on_packets now [] = record { at = λ o h. (refl, refl) }
  Means-on_packets now (p ∷ ps) = Means-seq (Means-on_packet now p) (Means-on_packets now ps)

  Means-seed_retained : (rid fw now : Str) → Means (seed_retained e rid fw now) (λ s. s)
  unfolding seed_retained
  Means-seed_retained rid fw now = record {
    at = λ o.
        let sensor = unwrap_or o.session.facts.sensor_id rid in
        (Means-seq
            (Means-seq (Means-send (Encode.publish (new_topics rid).version fw true))
              (Means-send_json (new_topics rid).radar_params (radar_payload e sensor)))
            (Means-send_json (new_topics rid).state
              (json.to_vec (to_json json (default_seed_state e sensor now))))).at
          o;
  }

  Means-seed_known : (rid fw : Option Str) (now : Str) → Means (seed_known e rid fw now) (λ s. s)
  Means-seed_known (some rid) (some fw) now =
      Means-seq {b = mark_seeded e} {g = λ t. t} (Means-seed_retained rid fw now)
        (record { at = λ o h. (refl, refl) })
  Means-seed_known (some rid) none now = Means-skip
  Means-seed_known none fw now = Means-skip

  Means-seed_when_ready : (now : Str) → Means (seed_when_ready e now) (λ s. s)
  unfolding seed_when_ready
  Means-seed_when_ready now = record {
    at = λ o. elim (Bool-cases (o.subscribed && not o.seeded)) [
      | inl due ↦
          rw due ((Means-seed_known o.session.facts.receiver_id o.session.facts.firmware now).at o)
      | inr idle ↦ rw idle (λ h. (refl, refl))
    ];
  }

  -- Where a connection goes on, what it has learnt and written is the fold over its packets and their
  -- times: nothing else of the socket has a part in it.
  pub observe-learns :
      (chunks : List (Bytes × Str)) (o : Observer W R)
      → (observe e chunks o).1 ≡ running
      → (observe e chunks o).0.session ≡ learn_packets (timed o.buf chunks) o.session
  unfolding observe on_chunk timed
  observe-learns [] o h = unfold learn_packets in refl
  observe-learns ((chunk, now) ∷ chunks) o h =
      let d = push o.buf chunk in
      let (begun, step) = continue_running e (on_chunk e chunk now o) (observe e chunks) h in
      let (session, buf) =
        (Means-seq (Means-on_packets now d.out) (Means-seed_when_ready now)).at (take_buffer e d o)
          begun in
      let next = (on_chunk e chunk now o).0 in
      let here = map (λ p. (p, now)) d.out in
      let later : next.session ≡ learn_packets here o.session = session in
      let rest = observe-learns chunks next (rw step at h) in
      rw step (rw (buf, later) at rest)
      ∙ sym (learn_packets-append here (timed d.buf chunks) o.session)
