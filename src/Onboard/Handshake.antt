-- ===== src/Onboard/Handshake.antt =====
-- A packet in the stand-in broker of onboard.rs: the session, and the order of subscribing and
-- seeding.
use aquilo_offline.Base.{
  ◌≡◌, arith, Bool, true, ◌&&◌, Option, none, some, List, [], ◌∷◌, Bytes, Str, is_some, Bool-cases,
  inl, inr, if◌then◌else◌, ℕ,
}
use aquilo_offline.Onboard.Facts.{Facts, apply_device_connect}
use aquilo_offline.Onboard.Output.{Session}
use aquilo_offline.Onboard.Observe.{
  Observer, Status, running, closed, failed, Action, continue, ◌▸◌, skip, send, Env, send_json,
  with_facts, acknowledge, finalize, mark_subscribed, on_packet, on_packets,
}
use aquilo_offline.Onboard.Progress.{
  Extends, apply_device_connect-Extends, apply_device_publish-Extends,
}
use aquilo_offline.Onboard.Sessions.{
  Progress, Progress-refl, Progress-trans, with_facts-Progress, maybe_finalize-Progress,
}
use aquilo_offline.Wire.Decode.{
  Packet, Connect, connect, publish, subscribe, ping_req, disconnect, other,
}

-- A device that was seeded had subscribed, and its receiver id and firmware are known.
abbrev pub seeded_in_order : {R : Type 0} → Bool → Bool → Facts R → Bool
seeded_in_order seeded subscribed f =
    if seeded then subscribed && (is_some f.receiver_id && is_some f.firmware) else true

order-Extends :
    {R : Type 0} (seeded subscribed : Bool) (f g : Facts R)
    → Extends f g
    → seeded_in_order seeded subscribed f ≡ true
    → seeded_in_order seeded subscribed g ≡ true
order-Extends seeded subscribed f g h k = ground arith

module _ {W R : Type 0} where
  pub record IsOrderly (o : Observer W R) : Type 0 where
    pub order : seeded_in_order o.seeded o.subscribed o.session.facts ≡ true

  -- From `o` to `o'` the session has gone forward; the order holds if it held before.
  pub record Onward (o o' : Observer W R) : Type 0 where
    pub session : Progress o.session o'.session
    pub order : IsOrderly o → IsOrderly o'

  pub record Forward (a : Action W R) : Type 0 where
    pub at : (o : Observer W R) → Onward o (a o).0

  pub Onward-refl : (o : Observer W R) → Onward o o
  Onward-refl o = record { session = Progress-refl o.session; order = λ h. h }

  pub Onward-trans : {o p q : Observer W R} → Onward o p → Onward p q → Onward o q
  Onward-trans a b = record {
    session = Progress-trans a.session b.session;
    order = λ h. b.order (a.order h);
  }

  Forward-continue :
      (o : Observer W R) (r : Observer W R × Status) {b : Action W R}
      → Onward o r.0
      → Forward b
      → Onward o (continue r b).0
  Forward-continue o (p, running) h kb = Onward-trans h (kb.at p)
  Forward-continue o (p, closed) h kb = h
  Forward-continue o (p, failed) h kb = h

  pub Forward-seq : {a b : Action W R} → Forward a → Forward b → Forward (a ▸ b)
  Forward-seq {a} ka kb = record { at = λ o. Forward-continue o (a o) (ka.at o) kb }

  pub Forward-skip : Forward skip
  Forward-skip = record { at = Onward-refl }

  pub Forward-send : (accepts : Bytes → Bool) (bytes : Bytes) → Forward (send accepts bytes)
  unfolding send
  Forward-send accepts bytes = elim (Bool-cases (accepts bytes)) [
    | inl taken ↦ record {
      at = λ o.
          rw taken
            (record { session = Progress-refl o.session; order = λ h. record { order = h.order } });
    }
    | inr refused ↦ record { at = λ o. rw refused (Onward-refl o) }
  ]

module _ {V W R : Type 0} (e : Env V W R) where
  open e use {float, json, decode, disk, opts, accepts}

  session_step :
      (o : Observer W R) (s : Session W R)
      → Progress o.session s
      → Onward o (record o { session = s })
  session_step o s h = record {
    session = h;
    order = λ k. record {
      order = order-Extends o.seeded o.subscribed o.session.facts s.facts h.facts k.order;
    };
  }

  Forward-with_facts :
      (f : Facts R → Facts R) → ((g : Facts R) → Extends g (f g)) → Forward (with_facts e f)
  Forward-with_facts f h = record {
    at = λ o.
        session_step o _ (with_facts-Progress o.session (f o.session.facts) (h o.session.facts));
  }

  pub Forward-finalize : (now : Str) → Forward (finalize e now)
  Forward-finalize now = record {
    at = λ o. session_step o _ (maybe_finalize-Progress float disk opts now o.session);
  }

  Forward-send_json : (topic : Str) (payload : Option Bytes) → Forward (send_json e topic payload)
  Forward-send_json topic none = record { at = Onward-refl }
  Forward-send_json topic (some payload) = record { at = (Forward-send accepts _).at }

  Forward-acknowledge : (id : Option ℕ) → Forward (acknowledge e id)
  Forward-acknowledge none = Forward-skip
  Forward-acknowledge (some id) = record { at = (Forward-send accepts _).at }

  Forward-mark_subscribed : Forward (mark_subscribed e)
  Forward-mark_subscribed = record {
    at = λ o. record {
      session = Progress-refl o.session;
      order =
          λ h. record { order = subscribed_later o.seeded o.subscribed o.session.facts h.order };
    };
  }
    where
      subscribed_later :
          (seeded subscribed : Bool) (f : Facts R)
          → seeded_in_order seeded subscribed f ≡ true
          → seeded_in_order seeded true f ≡ true
      subscribed_later seeded subscribed f h = ground arith

  device_connect-Extends : (c : Connect) (f : Facts R) → Extends f (apply_device_connect f c)
  device_connect-Extends c f = (apply_device_connect-Extends f c).0

  -- What the actions of a packet are made of.
  ruleset forward_rules = (
    Forward-seq, Forward-skip, Forward-send, Forward-send_json, Forward-acknowledge,
    Forward-with_facts, Forward-finalize, Forward-mark_subscribed,
  )

  pub Forward-on_packet : (now : Str) (p : Packet) → Forward (on_packet e now p)
  unfolding on_packet
  Forward-on_packet now (connect c) = search (forward_rules, device_connect-Extends)
  Forward-on_packet now (subscribe s) = search forward_rules
  Forward-on_packet now (publish p) =
      search (forward_rules, apply_device_publish-Extends float json decode)
  Forward-on_packet now ping_req = search forward_rules
  Forward-on_packet now disconnect = record { at = Onward-refl }
  Forward-on_packet now (other kind) = search forward_rules

  pub Forward-on_packets : (now : Str) (ps : List Packet) → Forward (on_packets e now ps)
  unfolding on_packets
  Forward-on_packets now [] = Forward-skip
  Forward-on_packets now (p ∷ ps) =
      Forward-seq (Forward-on_packet now p) (Forward-on_packets now ps)
