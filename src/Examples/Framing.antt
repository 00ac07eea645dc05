-- ===== src/Examples/Framing.antt =====
-- Runs of the MQTT decoder and encoders on concrete bytes.
use mathlib.Core.List.{flatten}
use aquilo_offline.Base.{
  ◌≡◌, refl, arith, true, false, some, none, [], ◌∷◌, ◌++◌, codes, from_utf8, length,
}
use aquilo_offline.Wire.Loops.{fuel_enough}
use aquilo_offline.Wire.Decode.{topics_loop}
use aquilo_offline.Wire.Encode.{encode_len}
use aquilo_offline.Wire.Chunks.{push-incomplete, push_all, packets, push_all-wire}
use aquilo_offline.Wire.Credentials.{read_as_text, decode_connect_body}
use aquilo_offline.Wire.Decode.{
  Connect, Publish, connect, publish, subscribe, ping_req, decode_body, decode_connect,
  decode_publish, decode_subscribe,
}
use aquilo_offline.Wire.Encode
use aquilo_offline.Wire.Encode.{frame, encode_len, str_field, suback, puback}
use aquilo_offline.Wire.Frames.{Frames, stop, step}
use aquilo_offline.Wire.Layout.{IsField, ConnectHeader, connect_body}
use aquilo_offline.Wire.RoundTrip.{decode_publish_body, decode_subscribe_body, next_frame-publish}
use aquilo_offline.Wire.Stream.{packet, finish_frame, varint_loop, incomplete, next_frame, push}

-- A ping, a PUBLISH of QoS 0, and the first byte of a third frame, in three chunks.
push_all-wire_example :
    push_all [] ((0xc0 ∷ []) ∷ (0 ∷ 0x30 ∷ 3 ∷ []) ∷ (0 ∷ 1 ∷ b'a' ∷ 0x30 ∷ []) ∷ [])
    ≡ record { out = packets ((0xc0, []) ∷ (0x30, 0 ∷ 1 ∷ b'a' ∷ []) ∷ []); buf = 0x30 ∷ [] }
unfolding flatten
push_all-wire_example =
    push_all-wire ((0xc0, []) ∷ (0x30, 0 ∷ 1 ∷ b'a' ∷ []) ∷ []) (0x30 ∷ [])
      ((0xc0 ∷ []) ∷ (0 ∷ 0x30 ∷ 3 ∷ []) ∷ (0 ∷ 1 ∷ b'a' ∷ 0x30 ∷ []) ∷ [])
      (omega arith, (omega arith, tt)) (unfold next_frame in refl) (unfold frame encode_len in refl)

-- The frame of a ping, alone in a buffer.
ping_frame : Frames (0xc0 ∷ 0 ∷ []) (ping_req ∷ []) []
unfolding next_frame finish_frame varint_loop decode_body
ping_frame = step (some ping_req) 2 refl (stop refl)

push-incomplete_example :
    next_frame (push (0x30 ∷ []) (0xff ∷ 0xff ∷ 0xff ∷ 0xff ∷ 1 ∷ [])).buf ≡ incomplete
push-incomplete_example = push-incomplete (0x30 ∷ []) (0xff ∷ 0xff ∷ 0xff ∷ 0xff ∷ 1 ∷ [])

a-IsField : IsField (b'a' ∷ [])
unfolding from_utf8
a-IsField = record { text = refl; short = omega arith }

abbrev one_publish : Publish
one_publish = record {
  topic = b'a' ∷ [];
  payload = 5 ∷ 6 ∷ [];
  qos = 1;
  retain = false;
  packet_id = some 258;
}

decode_publish_body_example :
    decode_publish 2 (0 ∷ 1 ∷ b'a' ∷ 1 ∷ 2 ∷ 5 ∷ 6 ∷ []) ≡ some (publish one_publish)
unfolding str_field
decode_publish_body_example = decode_publish_body 2 one_publish (record {
  topic = a-IsField;
  qos = refl;
  retain = refl;
  with_id = refl;
  id_fits = λ n e. ground arith;
})

decode_subscribe_body_example :
    decode_subscribe (1 ∷ 2 ∷ 0 ∷ 1 ∷ b'a' ∷ 1 ∷ [])
    ≡ some (subscribe (record { packet_id = 258; topics = (b'a' ∷ []) ∷ [] }))
unfolding str_field
decode_subscribe_body_example =
    decode_subscribe_body 258 ((b'a' ∷ [], 1) ∷ []) (omega arith) (a-IsField, tt)

next_frame-publish_example :
    next_frame (Encode.publish (b'a' ∷ []) (5 ∷ []) true ++ 9 ∷ [])
    ≡ packet
        (some (
          publish (record {
            topic = b'a' ∷ [];
            payload = 5 ∷ [];
            qos = 0;
            retain = true;
            packet_id = none;
          })))
        (length (Encode.publish (b'a' ∷ []) (5 ∷ []) true))
next_frame-publish_example =
    next_frame-publish (b'a' ∷ []) (5 ∷ []) (9 ∷ []) true a-IsField
      (unfold str_field in omega arith)

-- A CONNECT with a will, a user name, and a password of a byte that is not UTF-8.
abbrev header : ConnectHeader
header = record {
  protocol = codes "MQTT";
  level = 4;
  flags = 0xc6;
  keep_hi = 0;
  keep_lo = 60;
  will = some (codes "w", 1 ∷ []);
}

abbrev identity : Connect
identity = record {
  client_id = b'a' ∷ [];
  username = some (b'a' ∷ []);
  password = some (0xff ∷ []);
}

decode_connect_body_example :
    decode_connect (connect_body header identity) ≡ some (connect (read_as_text identity))
decode_connect_body_example = decode_connect_body header identity (record {
  protocol = omega arith;
  client_id = omega arith;
  will = refl;
  will_fits = (omega arith, omega arith);
  username = refl;
  username_fits = omega arith;
  password = refl;
  password_fits = omega arith;
})

-- One topic, and a length of two bytes.
fuel_enough_example :
    (topics_loop 9 (0 ∷ 1 ∷ 0 ∷ 1 ∷ b'a' ∷ 0 ∷ []) 2 []
      ≡ topics_loop 6 (0 ∷ 1 ∷ 0 ∷ 1 ∷ b'a' ∷ 0 ∷ []) 2 [])
    × (encode_len 300 200 ≡ encode_len 201 200)
fuel_enough_example =
    fuel_enough (0 ∷ 1 ∷ 0 ∷ 1 ∷ b'a' ∷ 0 ∷ []) 9 [] 300 200 (omega arith) (omega arith)
