-- ===== src/Onboard/Replies.antt =====
-- What the stand-in broker of onboard.rs sends for the packets of a chunk.
use aquilo_offline.Base.{
  ℕ, ◌≡◌, refl, true, Option, none, some, List, [], ◌∷◌, ◌++◌, ◌/◌, ◌%◌, replicate, Bytes, Str,
  length, append_assoc, append-nil, sym, ◌∙◌, ap,
}
use aquilo_offline.Onboard.Facts.{Facts, apply_device_publish}
use aquilo_offline.Onboard.Observe.{
  Observer, Status, running, closed, ◌▸◌, send, Env, acknowledge, finalize, on_packet, on_packets,
  with_facts,
}
use aquilo_offline.Wire.Decode.{Packet, connect, publish, subscribe, ping_req, disconnect, other}
use aquilo_offline.Wire.Encode.{frame, connack, suback, puback, pingresp}

-- A PUBACK for a packet id.
abbrev pub acknowledged : Option ℕ → List Bytes
acknowledged none = []
acknowledged (some id) = (0x40 ∷ 2 ∷ (id / 256 % 256) ∷ (id % 256) ∷ []) ∷ []

-- The reply to a packet, in bytes: an accepting CONNACK without a session, a SUBACK that grants QoS 0
-- for each topic, a PUBACK for any packet id, whatever the QoS that it came with, and a PINGRESP. No
-- other packet has a reply.
abbrev pub reply : Packet → List Bytes
reply (connect c) = (0x20 ∷ 2 ∷ 0 ∷ 0 ∷ []) ∷ []
reply (subscribe s) =
    frame 0x90 ((s.packet_id / 256 % 256) ∷ (s.packet_id % 256) ∷ replicate (length s.topics) 0)
    ∷ []
reply (publish p) = acknowledged p.packet_id
reply ping_req = (0xd0 ∷ 0 ∷ []) ∷ []
reply disconnect = []
reply (other kind) = []

-- The replies to the packets in front of the first DISCONNECT.
abbrev pub owed : List Packet → List Bytes
owed [] = []
owed (disconnect ∷ ps) = []
owed (p ∷ ps) = reply p ++ owed ps

-- A DISCONNECT ends the connection.
abbrev pub ending : List Packet → Status
ending [] = running
ending (disconnect ∷ ps) = closed
ending (_ ∷ ps) = ending ps

grown :
    (sent r rest : List Bytes) {now : List Bytes} {s t : Status}
    → (now ≡ (sent ++ r) ++ rest) × (s ≡ t)
    → (now ≡ sent ++ (r ++ rest)) × (s ≡ t)
grown sent r rest (h, k) = (h ∙ append_assoc sent r rest, k)

module _ {V W R : Type 0} (e : Env V W R) where
  open e use {float, json, decode, disk, opts, accepts}

  -- What the packets `ps` do from a state.
  record Answers (now : Str) (ps : List Packet) (o : Observer W R) : Type 0 where
    sent : (on_packets e now ps o).0.sent ≡ o.sent ++ owed ps
    status : (on_packets e now ps o).1 ≡ ending ps

  answers :
      (now : Str) (ps : List Packet) (o : Observer W R) (before sent : List Bytes)
      → o.sent ≡ before ++ sent
      → Answers now ps o
      → ((on_packets e now ps o).0.sent ≡ before ++ (sent ++ owed ps))
        × ((on_packets e now ps o).1 ≡ ending ps)
  answers now ps o before sent h a =
      grown before sent (owed ps) (a.sent ∙ ap (λ (l : List Bytes). l ++ owed ps) h, a.status)

  publish_lem :
      (now : Str) (id : Option ℕ) (f : Facts R → Facts R) (ps : List Packet) (o : Observer W R)
      → ((bytes : Bytes) → accepts bytes ≡ true)
      → ((o' : Observer W R) → Answers now ps o')
      → (((acknowledge e id ▸ with_facts e f ▸ finalize e now ▸ on_packets e now ps) o).0.sent
          ≡ o.sent ++ (acknowledged id ++ owed ps))
        × (((acknowledge e id ▸ with_facts e f ▸ finalize e now ▸ on_packets e now ps) o).1
            ≡ ending ps)
  unfolding send puback
  publish_lem now none f ps o h ih = let a = ih _ in (a.sent, a.status)
  publish_lem now (some id) f ps o h ih =
      rw h (answers now ps _ o.sent (puback id ∷ []) refl (ih _))

  packed :
      (now : Str) (ps : List Packet) (o : Observer W R)
      → ((on_packets e now ps o).0.sent ≡ o.sent ++ owed ps)
        × ((on_packets e now ps o).1 ≡ ending ps)
      → Answers now ps o
  packed now ps o (h, k) = record { sent = h; status = k }

  owed_to :
      (now : Str) (ps : List Packet) (o : Observer W R)
      → ((bytes : Bytes) → accepts bytes ≡ true)
      → Answers now ps o
  unfolding on_packets on_packet send connack suback puback pingresp
  owed_to now [] o h = record { sent = sym (append-nil o.sent); status = refl }
  owed_to now (connect c ∷ ps) o h =
      packed now (connect c ∷ ps) o
        (rw h (answers now ps _ o.sent (connack ∷ []) refl (owed_to now ps _ h)))
  owed_to now (subscribe s ∷ ps) o h = packed now (subscribe s ∷ ps) o (
      rw h (
        answers now ps _ o.sent (suback s.packet_id (length s.topics) ∷ []) refl
          (owed_to now ps _ h)))
  owed_to now (publish p ∷ ps) o h =
      let k =
        publish_lem now p.packet_id
          (λ g. apply_device_publish float json decode g p.topic p.payload now) ps o h
          (λ o'. owed_to now ps o' h) in
      record { sent = k.0; status = k.1 }
  owed_to now (ping_req ∷ ps) o h =
      packed now (ping_req ∷ ps) o
        (rw h (answers now ps _ o.sent (pingresp ∷ []) refl (owed_to now ps _ h)))
  owed_to now (disconnect ∷ ps) o h = record { sent = sym (append-nil o.sent); status = refl }
  owed_to now (other kind ∷ ps) o h =
      let a = owed_to now ps o h in record { sent = a.sent; status = a.status }

  -- While the device takes what is written, the stand-in broker writes for each packet before a
  -- DISCONNECT the reply to it, in order and with nothing else: an accepting CONNACK for a CONNECT, a
  -- SUBACK with the packet id and QoS 0 for each topic of a SUBSCRIBE, a PUBACK with the packet id of a
  -- PUBLISH that has one, at QoS 2 too, a PINGRESP for a PINGREQ, and none for any other packet. The
  -- packets end the connection exactly by a DISCONNECT.
  pub on_packets-owed :
      (now : Str) (ps : List Packet) (o : Observer W R)
      → ((bytes : Bytes) → accepts bytes ≡ true)
      → ((on_packets e now ps o).0.sent ≡ o.sent ++ owed ps)
        × ((on_packets e now ps o).1 ≡ ending ps)
  on_packets-owed now ps o h = let a = owed_to now ps o h in (a.sent, a.status)
