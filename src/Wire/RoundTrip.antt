-- ===== src/Wire/RoundTrip.antt =====
-- A PUBLISH and a SUBSCRIBE: their layout and the decoders of mqtt_wire.rs.
use aquilo_offline.Base.{
  lengths, ℕ, zero, suc, ◌+◌, ◌/◌, ◌≤◌, ◌<◌, ◌≡◌, refl, arith, Option, some, none, List, [], ◌∷◌,
  ◌++◌, Bytes, Str, length, length-append, append_assoc, Bool, true, false, is_some, bit_and, ltb,
  append-nil,
}
use aquilo_offline.Wire.Decode.{
  Publish, publish, subscribe, decode_body, decode_publish, decode_subscribe, optional_id,
  topics_loop,
}
use aquilo_offline.Wire.Encode
use aquilo_offline.Wire.Encode.{str_field, frame, publish_header, suback, puback, pingresp, connack}
use aquilo_offline.Wire.Fields.{length-str_field, u16_of-halves}
use aquilo_offline.Wire.Framing.{max_body, next_frame-frame}
use aquilo_offline.Wire.Cursor.{
  Ahead, Ahead-zero, Ahead-skip, Ahead-cons, get_elem?-Ahead, rest_from-Ahead, Ahead-str_field,
  read_str-Ahead, length-Ahead,
}
use aquilo_offline.Wire.Stream.{packet, next_frame}
use aquilo_offline.Wire.Layout.{
  IsField, id_bytes, publish_body, IsPublish, topic_bytes, topic_names, AreTopics,
}

optional_id-Ahead :
    (body : Bytes) (off : ℕ) (o : Option ℕ) (qos : ℕ) (rest : Bytes)
    → Ahead body off (id_bytes o ++ rest)
    → ltb 0 qos ≡ is_some o
    → ((n : ℕ) → o ≡ some n → n < 65536)
    → optional_id body qos off ≡ some (o, off + length (id_bytes o))
unfolding optional_id
optional_id-Ahead body off none qos rest a w fits = rw w (ground arith)
optional_id-Ahead body off (some n) qos rest a w fits = rw w (
    ground
      (arith, get_elem?-Ahead a, get_elem?-Ahead (Ahead-cons a), u16_of-halves n (fits n refl)))

-- Every PUBLISH laid out as MQTT says, with or without a packet id, decodes to its fields.
pub decode_publish_body :
    (flags : ℕ) (p : Publish)
    → IsPublish flags p
    → decode_publish flags (publish_body p) ≡ some (publish p)
unfolding decode_publish
decode_publish_body flags p h =
    let a0 : Ahead (publish_body p) 0 (publish_body p) = Ahead-zero (publish_body p) in
    let a1 = Ahead-str_field p.topic (id_bytes p.packet_id ++ p.payload) a0 in
    let a2 = Ahead-skip (id_bytes p.packet_id) a1 in
    let rest = id_bytes p.packet_id ++ p.payload in
    rw (
      read_str-Ahead p.topic rest a0 h.topic.short h.topic.text,
      h.qos,
      optional_id-Ahead (publish_body p) _ p.packet_id p.qos p.payload a1 h.with_id h.id_fits,
      rest_from-Ahead a2,
      h.retain,
    )

topics_loop-Ahead :
    (ts : List (Str × ℕ)) (fuel : ℕ) (body : Bytes) (off : ℕ) (out : List Str)
    → Ahead body off (topic_bytes ts)
    → AreTopics ts
    → length (topic_bytes ts) ≤ fuel
    → topics_loop fuel body off out ≡ some (out ++ topic_names ts)
unfolding topics_loop
topics_loop-Ahead [] zero body off out a h f = rw append-nil refl
topics_loop-Ahead [] (suc fuel) body off out a h f = ground (arith, length-Ahead a, append-nil out)
topics_loop-Ahead ((s, q) ∷ ts) zero body off out a h f =
    absurd (grind (arith, lengths, length-str_field s))
topics_loop-Ahead ((s, q) ∷ ts) (suc fuel) body off out a h f = ground (
  arith,
  length-Ahead a,
  length-append (str_field s) (q ∷ topic_bytes ts),
  length-str_field s,
  read_str-Ahead s (q ∷ topic_bytes ts) a h.0.short h.0.text,
  topics_loop-Ahead ts fuel body (off + 2 + length s + 1) (out ++ s ∷ [])
      (Ahead-cons (Ahead-str_field s (q ∷ topic_bytes ts) a)) h.1,
  append_assoc out (s ∷ []) (topic_names ts),
)

-- Every SUBSCRIBE laid out as MQTT says decodes to its packet id and all its topics, in order.
pub decode_subscribe_body :
    (packet_id : ℕ) (ts : List (Str × ℕ))
    → packet_id < 65536
    → AreTopics ts
    → decode_subscribe (id_bytes (some packet_id) ++ topic_bytes ts)
      ≡ some (subscribe (record { packet_id = packet_id; topics = topic_names ts }))
unfolding decode_subscribe
decode_subscribe_body packet_id ts h t =
    let body = id_bytes (some packet_id) ++ topic_bytes ts in
    let a0 : Ahead body 0 body = Ahead-zero body in
    rw (
      topics_loop-Ahead ts (length body) body 2 [] (Ahead-cons (Ahead-cons a0)) t (omega arith),
      u16_of-halves packet_id h,
    )

plain_publish : Str → Bytes → Bool → Publish
plain_publish topic payload retain = record {
  topic = topic;
  payload = payload;
  qos = 0;
  retain = retain;
  packet_id = none;
}

decode_body-publish :
    (topic : Str) (payload : Bytes) (retain : Bool)
    → IsField topic
    → decode_body
        (publish_header retain / 16)
        (bit_and (publish_header retain) 0x0f)
        (str_field topic ++ payload)
      ≡ some (publish (plain_publish topic payload retain))
unfolding decode_body plain_publish
decode_body-publish topic payload true t =
    decode_publish_body 1 (plain_publish topic payload true)
      (record { topic = t; qos = refl; retain = refl; with_id = refl; id_fits = λ n e. cc })
decode_body-publish topic payload false t =
    decode_publish_body 0 (plain_publish topic payload false)
      (record { topic = t; qos = refl; retain = refl; with_id = refl; id_fits = λ n e. cc })

-- What `publish` writes is read back as one PUBLISH of QoS 0 with the topic, payload and retain bit
-- given, whatever follows it: for a topic that fits its length bytes and a body below 128 ^ 4 bytes.
pub next_frame-publish :
    (topic : Str) (payload rest : Bytes) (retain : Bool)
    → IsField topic
    → length (str_field topic ++ payload) < max_body
    → next_frame (Encode.publish topic payload retain ++ rest)
      ≡ packet
          (some (
            publish (record {
              topic = topic;
              payload = payload;
              qos = 0;
              retain = retain;
              packet_id = none;
            })))
          (length (Encode.publish topic payload retain))
unfolding Encode.publish plain_publish
next_frame-publish topic payload rest retain t h = rw (
  next_frame-frame (publish_header retain) (str_field topic ++ payload) rest h,
  decode_body-publish topic payload retain t,
)
