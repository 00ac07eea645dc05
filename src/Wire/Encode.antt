-- ===== src/Wire/Encode.antt =====
-- The encoders of mqtt_wire.rs. A `u8` cast keeps the low 8 bits.
use aquilo_offline.Base.{
  ℕ, zero, suc, ◌/◌, ◌%◌, bit_or, Bool, [], ◌∷◌, ◌++◌, Bytes, Str, ltb, if◌then◌else◌, length,
  replicate,
}

-- The varint loop of `frame`, on fuel: the length falls while it is not 0.
unfoldable pub encode_len : ℕ → ℕ → Bytes
encode_len zero len = []
encode_len (suc fuel) len =
    let byte = len % 128 in
    let rest = encode_len fuel (len / 128) in
    if ltb 0 (len / 128) then bit_or byte 0x80 ∷ rest else byte ∷ []

unfoldable pub frame : ℕ → Bytes → Bytes
frame header body = header ∷ encode_len (suc (length body)) (length body) ++ body

unfoldable pub connack : Bytes
connack = 0x20 ∷ 0x02 ∷ 0x00 ∷ 0x00 ∷ []

unfoldable pub suback : ℕ → ℕ → Bytes
suback packet_id count =
    frame 0x90 ((packet_id / 256 % 256) ∷ (packet_id % 256) ∷ replicate count 0x00)

unfoldable pub puback : ℕ → Bytes
puback packet_id = 0x40 ∷ 0x02 ∷ (packet_id / 256 % 256) ∷ (packet_id % 256) ∷ []

unfoldable pub pingresp : Bytes
pingresp = 0xd0 ∷ 0x00 ∷ []

-- A byte string behind its length in two bytes, as `publish` writes the topic.
unfoldable pub str_field : Str → Bytes
str_field s = (length s / 256 % 256) ∷ (length s % 256) ∷ s

-- `0x30 | if retain { 0x01 } else { 0x00 }`
abbrev pub publish_header : Bool → ℕ
publish_header retain = bit_or 0x30 (if retain then 0x01 else 0x00)

unfoldable pub publish : Str → Bytes → Bool → Bytes
publish topic payload retain = frame (publish_header retain) (str_field topic ++ payload)
