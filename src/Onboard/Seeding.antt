-- ===== src/Onboard/Seeding.antt =====
-- The stand-in broker of onboard.rs over any chunks: when it seeds the device, and what its session
-- keeps.
use aquilo_offline.Base.{
  ◌≡◌, refl, ◌∙◌, arith, Bool, true, false, not, ◌&&◌, Option, none, some, List, [], ◌∷◌, Bytes,
  Str, is_some, Bool-cases, inl, inr, if◌then◌else◌,
}
use aquilo_offline.Onboard.Facts.{Facts}
use aquilo_offline.Onboard.Observe.{
  Observer, Status, running, closed, failed, Action, continue, ◌▸◌, send, Env, send_json,
  seed_retained, mark_seeded, seed_known, seed_when_ready, take_buffer, on_chunk, observe,
}
use aquilo_offline.Onboard.Sessions.{Progress, Progress-refl}
use aquilo_offline.Wire.Stream.{push}
use aquilo_offline.Onboard.Observe.{default_seed_state, radar_payload}
use aquilo_offline.Base.{unwrap_or}
use aquilo_offline.Core.State.{to_json}
use aquilo_offline.Server.Topics.{new_topics}
use aquilo_offline.Wire.Encode
use aquilo_offline.Wire.Stream.{Drained}
use aquilo_offline.Onboard.Handshake.{
  seeded_in_order, IsOrderly, Onward, Forward, Onward-refl, Onward-trans, Forward-seq, Forward-skip,
  Forward-on_packets,
}

module _ {V W R : Type 0} (e : Env V W R) where
  open e use {float, json, decode, disk, opts, accepts}

  -- An action that only writes to the socket.
  record Writes (a : Action W R) : Type 0 where
    at :
        (o : Observer W R)
        → ((a o).0.session ≡ o.session)
          × ((a o).0.subscribed ≡ o.subscribed)
          × ((a o).0.seeded ≡ o.seeded)

  Writes-send : (bytes : Bytes) → Writes (send accepts bytes)
  unfolding send
  Writes-send bytes = elim (Bool-cases (accepts bytes)) [
    | inl taken ↦ record { at = λ o. rw taken (refl, refl, refl) }
    | inr refused ↦ record { at = λ o. rw refused (refl, refl, refl) }
  ]

  Writes-send_json : (topic : Str) (payload : Option Bytes) → Writes (send_json e topic payload)
  Writes-send_json topic none = record { at = λ o. (refl, refl, refl) }
  Writes-send_json topic (some payload) = record { at = (Writes-send _).at }

  Writes-continue :
      (o : Observer W R) (r : Observer W R × Status) {b : Action W R}
      → (r.0.session ≡ o.session) × (r.0.subscribed ≡ o.subscribed) × (r.0.seeded ≡ o.seeded)
      → Writes b
      → ((continue r b).0.session ≡ o.session)
        × ((continue r b).0.subscribed ≡ o.subscribed)
        × ((continue r b).0.seeded ≡ o.seeded)
  Writes-continue o (p, running) h kb = let k = kb.at p in (k.0 ∙ h.0, k.1 ∙ h.1, k.2 ∙ h.2)
  Writes-continue o (p, closed) h kb = h
  Writes-continue o (p, failed) h kb = h

  Writes-seq : {a b : Action W R} → Writes a → Writes b → Writes (a ▸ b)
  Writes-seq {a} ka kb = record { at = λ o. Writes-continue o (a o) (ka.at o) kb }

  Writes-seed_retained : (rid fw now : Str) → Writes (seed_retained e rid fw now)
  unfolding seed_retained
  Writes-seed_retained rid fw now = record {
    at = λ o.
        let rid' = unwrap_or o.session.facts.sensor_id rid in
        (Writes-seq
            (Writes-seq (Writes-send (Encode.publish (new_topics rid).version fw true))
              (Writes-send_json (new_topics rid).radar_params (radar_payload e rid')))
            (Writes-send_json (new_topics rid).state
              (json.to_vec (to_json json (default_seed_state e rid' now))))).at
          o;
  }

  order_known :
      (f : Facts R)
      → is_some f.receiver_id ≡ true
      → is_some f.firmware ≡ true
      → seeded_in_order true true f ≡ true
  order_known f h k = ground arith

  Onward-Writes :
      {o p : Observer W R}
      → (p.session ≡ o.session) × (p.subscribed ≡ o.subscribed) × (p.seeded ≡ o.seeded)
      → Onward o p
  Onward-Writes {o} {p} (h, k, l) = record {
    session = rw h (Progress-refl o.session);
    order = λ m. record { order = rw (h, k, l) m.order };
  }

  marked :
      (o : Observer W R) (r : Observer W R × Status)
      → o.subscribed ≡ true
      → is_some o.session.facts.receiver_id ≡ true
      → is_some o.session.facts.firmware ≡ true
      → (r.0.session ≡ o.session) × (r.0.subscribed ≡ o.subscribed) × (r.0.seeded ≡ o.seeded)
      → Onward o (continue r (mark_seeded e)).0
  marked o (p, running) s rid fw (h, k, l) = record {
    session = rw h (Progress-refl o.session);
    order = λ m. record { order = rw (k, s, h) (order_known o.session.facts rid fw) };
  }
  marked o (p, closed) s rid fw h = Onward-Writes h
  marked o (p, failed) s rid fw h = Onward-Writes h

  seed_known-Onward :
      (o : Observer W R) (rid fw : Option Str) (now : Str)
      → o.session.facts.receiver_id ≡ rid
      → o.session.facts.firmware ≡ fw
      → o.subscribed ≡ true
      → Onward o (seed_known e rid fw now o).0
  seed_known-Onward o (some rid) (some fw) now h k s =
      marked o (seed_retained e rid fw now o) s (rw h refl) (rw k refl)
        ((Writes-seed_retained rid fw now).at o)
  seed_known-Onward o (some rid) none now h k s = Onward-refl o
  seed_known-Onward o none fw now h k s = Onward-refl o

  guarded :
      (o : Observer W R) (b : Bool) (r : Observer W R × Status)
      → (b ≡ true → Onward o r.0)
      → Onward o (if b then r else (o, running)).0
  guarded o true r h = h refl
  guarded o false r h = Onward-refl o

  and_left : (a b : Bool) → (a && b) ≡ true → a ≡ true
  and_left a b h = ground arith

  Forward-seed_when_ready : (now : Str) → Forward (seed_when_ready e now)
  unfolding seed_when_ready
  Forward-seed_when_ready now = record {
    at = λ o.
        guarded o _ _
          (λ h. seed_known-Onward o _ _ now refl refl (and_left o.subscribed (not o.seeded) h));
  }

  take_buffer-Onward : (d : Drained) (o : Observer W R) → Onward o (take_buffer e d o)
  take_buffer-Onward d o = record {
    session = Progress-refl o.session;
    order = λ h. record { order = h.order };
  }

  Forward-on_chunk : (chunk : Bytes) (now : Str) → Forward (on_chunk e chunk now)
  unfolding on_chunk
  Forward-on_chunk chunk now = record {
    at = λ o.
        let d = push o.buf chunk in
        Onward-trans (take_buffer-Onward d o) (
          (Forward-seq (Forward-on_packets e now d.out) (Forward-seed_when_ready now)).at
            (take_buffer e d o));
  }

  Forward-observe : (chunks : List (Bytes × Str)) → Forward (observe e chunks)
  unfolding observe
  Forward-observe [] = Forward-skip
  Forward-observe ((chunk, now) ∷ chunks) =
      Forward-seq (Forward-on_chunk chunk now) (Forward-observe chunks)

  -- Over any chunks, with any writes failing: no fact that is known changes, the output once written
  -- is not written again, and the device is seeded only after it has subscribed, with its receiver id
  -- and its firmware known.
  pub observe-IsOrderly :
      (chunks : List (Bytes × Str)) (o : Observer W R)
      → IsOrderly o
      → Progress o.session (observe e chunks o).0.session × IsOrderly (observe e chunks o).0
  observe-IsOrderly chunks o h = let k = (Forward-observe chunks).at o in (k.session, k.order h)
