-- ===== src/Onboard/Gathering.antt =====
-- What the stand-in broker of onboard.rs gathers from the packets of a device.
use mathlib.Core.Path.{subst}
use aquilo_offline.Base.{
  ap, sym, unwrap_or, false, ◌≡◌, refl, arith, true, ◌&&◌, some, List, [], ◌∷◌, Str, codes, is_some,
  ends_with, ℕ, get_elem?, zero, suc,
}
use aquilo_offline.Core.Battery.{percent, default_points}
use aquilo_offline.Core.Reading.{Reading, ok, parse_reading}
use aquilo_offline.Onboard.Facts.{
  Facts, apply_device_connect, apply_device_publish, is_complete, missing, seed_of_reading,
}
use aquilo_offline.Onboard.Handshake.{Forward, Forward-finalize, Forward-send, Forward-on_packets}
use aquilo_offline.Onboard.Observe.{
  Observer, Status, running, closed, failed, Action, continue, ◌▸◌, Env, with_facts, acknowledge,
  on_packet, on_packets,
}
use aquilo_offline.Onboard.Progress.{Extends, is_complete_iff}
use aquilo_offline.Server.Firmware.{firmware_from_log}
use aquilo_offline.Wire.Decode.{Packet, Connect, Publish, connect, publish}
use aquilo_offline.Wire.Encode.{connack}

-- A property of facts that stays when more is known.
pub record Stable {R : Type 0} (Q : Facts R → Type 0) : Type 0 where
  pub stays : (f g : Facts R) → Extends f g → Q f → Q g

module _ {W R : Type 0} (Q : Facts R → Type 0) where
  -- An action behind which the facts have the property, unless it ends the connection.
  pub record Gives (a : Action W R) : Type 0 where
    pub at : (o : Observer W R) → (a o).1 ≡ running → Q (a o).0.session.facts

  Gives-continue :
      (r : Observer W R × Status) (b : Action W R)
      → Gives b
      → (continue r b).1 ≡ running
      → Q (continue r b).0.session.facts
  Gives-continue (o, running) b g h = g.at o h
  Gives-continue (o, closed) b g h = cc
  Gives-continue (o, failed) b g h = cc

  Gives-after : (a : Action W R) {b : Action W R} → Gives b → Gives (a ▸ b)
  Gives-after a {b} g = record { at = λ o. Gives-continue (a o) b g }

  Stays-continue :
      (r : Observer W R × Status) (b : Action W R)
      → Stable Q
      → (r.1 ≡ running → Q r.0.session.facts)
      → Forward b
      → (continue r b).1 ≡ running
      → Q (continue r b).0.session.facts
  Stays-continue (o, running) b s q f h = s.stays _ _ (f.at o).session.facts (q refl)
  Stays-continue (o, closed) b s q f h = cc
  Stays-continue (o, failed) b s q f h = cc

  Gives-before : Stable Q → {a b : Action W R} → Gives a → Forward b → Gives (a ▸ b)
  Gives-before s {a} {b} g f = record { at = λ o. Stays-continue (a o) b s (g.at o) f }

module _ {V W R : Type 0} (e : Env V W R) (Q : Facts R → Type 0) (stable : Stable Q) where
  open e use {float, json, decode, disk, opts, accepts}

  -- Among packets it is enough that one gives it.
  pub Gives-on_packets :
      (now : Str) (p : Packet)
      → Gives Q (on_packet e now p)
      → (ps : List Packet) (i : ℕ) → get_elem? ps i ≡ some p
      → Gives Q (on_packets e now ps)
  unfolding on_packets
  Gives-on_packets now p g [] i h = cc
  Gives-on_packets now p g (q ∷ ps) zero h =
      let same : q ≡ p = ap (λ o. unwrap_or o p) h in
      Gives-before Q stable (subst (λ x. Gives Q (on_packet e now x)) (sym same) g)
        (Forward-on_packets e now ps)
  Gives-on_packets now p g (q ∷ ps) (suc i) h =
      Gives-after Q (on_packet e now q) (Gives-on_packets now p g ps i h)

  pub Gives-connect :
      (now : Str) (c : Connect)
      → ((f : Facts R) → Q (apply_device_connect f c))
      → Gives Q (on_packet e now (connect c))
  unfolding on_packet
  Gives-connect now c h =
      Gives-before Q stable {a = with_facts e (λ f. apply_device_connect f c)}
        (record { at = λ o k. h o.session.facts }) (Forward-send accepts connack)

  pub Gives-publish :
      (now : Str) (p : Publish)
      → ((f : Facts R) → Q (apply_device_publish float json decode f p.topic p.payload now))
      → Gives Q (on_packet e now (publish p))
  unfolding on_packet
  Gives-publish now p h =
      Gives-before Q stable
        (Gives-after Q (acknowledge e p.packet_id) (record { at = λ o k. h o.session.facts }))
        (Forward-finalize e now)

-- What is learnt from a CONNECT, from a log line and from a reading.
abbrev pub Identified : {R : Type 0} → Facts R → Type 0
Identified f = (is_some f.receiver_id && is_some f.mqtt_user && is_some f.mqtt_pass) ≡ true

abbrev pub Versioned : {R : Type 0} → Facts R → Type 0
Versioned f = is_some f.firmware ≡ true

abbrev pub Measured : {R : Type 0} → Facts R → Type 0
Measured f = (is_some f.sensor_id && is_some f.seed) ≡ true

module _ {R : Type 0} where
  pub Identified-Stable : Stable {R = R} Identified
  Identified-Stable = record { stays = λ f g h q. ground arith }

  pub Versioned-Stable : Stable {R = R} Versioned
  Versioned-Stable = record { stays = λ f g h q. ground arith }

  pub Measured-Stable : Stable {R = R} Measured
  Measured-Stable = record { stays = λ f g h q. ground arith }

  pub together : (f : Facts R) → Identified f → Versioned f → Measured f → is_complete f ≡ true
  unfolding is_complete
  together f h k l = ground arith

module _ {V W R : Type 0} (e : Env V W R) where
  open e use {float, json, decode, disk, opts, accepts}

  pub identified :
      (f : Facts R) (c : Connect) {user pass : Str}
      → c.username ≡ some user
      → c.password ≡ some pass
      → Identified (apply_device_connect f c)
  unfolding apply_device_connect
  identified f c u p = ground arith

  pub versioned :
      (f : Facts R) (l : Publish) (now : Str) {fw : Str}
      → ends_with l.topic (codes "/log") ≡ true
      → firmware_from_log json l.payload ≡ some fw
      → Versioned (apply_device_publish float json decode f l.topic l.payload now)
  unfolding apply_device_publish
  versioned f l now t fw = rw (t, fw) (ground arith)

  pub measured :
      (f : Facts R) (r : Publish) (now : Str) {reading : Reading R}
      → ends_with r.topic (codes "/log") ≡ false
      → ends_with r.topic (codes "/read") ≡ true
      → parse_reading float decode r.payload ≡ ok reading
      → Measured (apply_device_publish float json decode f r.topic r.payload now)
  unfolding apply_device_publish seed_of_reading percent default_points
  measured f r now t t' p = rw (t, t', p) (ground arith)

  -- Without the cloud: once a connection's packets have brought a CONNECT with a user name and a
  -- password, a log line with a firmware and a reading, in any order and among any others, all facts
  -- that a config needs are known, none is reported missing, unless the connection has ended before.
  on_packets-gathers :
      (now : Str) (ps : List Packet) (o : Observer W R) (i j k : ℕ) (c : Connect) (l r : Publish)
      {user pass fw : Str} {reading : Reading R}
      → get_elem? ps i ≡ some (connect c)
      → c.username ≡ some user
      → c.password ≡ some pass
      → get_elem? ps j ≡ some (publish l)
      → ends_with l.topic (codes "/log") ≡ true
      → firmware_from_log json l.payload ≡ some fw
      → get_elem? ps k ≡ some (publish r)
      → ends_with r.topic (codes "/log") ≡ false
      → ends_with r.topic (codes "/read") ≡ true
      → parse_reading float decode r.payload ≡ ok reading
      → (on_packets e now ps o).1 ≡ running
      → (is_complete (on_packets e now ps o).0.session.facts ≡ true)
        × (missing (on_packets e now ps o).0.session.facts ≡ [])
  on_packets-gathers now ps o i j k c l r hi user pass hj log fw hk other read parsed h =
      let connected =
        Gives-on_packets e Identified Identified-Stable now (connect c)
          (Gives-connect e Identified Identified-Stable now c (λ f. identified f c user pass)) ps i
          hi in
      let logged =
        Gives-on_packets e Versioned Versioned-Stable now (publish l)
          (Gives-publish e Versioned Versioned-Stable now l (λ f. versioned f l now log fw)) ps j
          hj in
      let known =
        Gives-on_packets e Measured Measured-Stable now (publish r)
          (Gives-publish e Measured Measured-Stable now r (λ f. measured f r now other read parsed))
          ps k hk in
      let facts = (on_packets e now ps o).0.session.facts in
      let complete = together facts (connected.at o h) (logged.at o h) (known.at o h) in
      (complete, (is_complete_iff facts).0 complete)
