-- ===== src/Wire/Replies.antt =====
-- The replies that `observe` sends, byte by byte, and what a corrupt length does to the decoder.
use aquilo_offline.Base.{
  ℕ, ◌+◌, ◌/◌, ◌%◌, ◌≤◌, ◌<◌, ◌≡◌, refl, arith, [], ◌∷◌, Bytes, replicate, length-replicate,
}
use aquilo_offline.Base.Bits.{top_bit}
use aquilo_offline.Wire.Decode.{u16_of}
use aquilo_offline.Wire.Encode.{frame, encode_len, suback, puback}
use aquilo_offline.Wire.Stream.{too_long, varint_loop, finish_frame, drain_loop, push}
use aquilo_offline.Wire.Fields.{u16_of-halves}
use aquilo_offline.Wire.Framing.{next_frame_lem}

-- A SUBACK for fewer than 126 topics is the header 0x90, the length, the packet id in two bytes that
-- join to it again, and one granted QoS 0 for each topic; a PUBACK carries the packet id alike.
suback_lem :
    (packet_id count : ℕ)
    → packet_id < 65536
    → count < 126
    → (suback packet_id count
        ≡ 0x90 ∷ (2 + count) ∷ (packet_id / 256 % 256) ∷ (packet_id % 256) ∷ replicate count 0x00)
      × (puback packet_id ≡ 0x40 ∷ 0x02 ∷ (packet_id / 256 % 256) ∷ (packet_id % 256) ∷ [])
      × (u16_of (packet_id / 256 % 256) (packet_id % 256) ≡ packet_id)
unfolding suback puback frame encode_len
suback_lem packet_id count h k =
    (ground (arith, length-replicate {A = ℕ} count 0x00), refl, u16_of-halves packet_id h)

four_continued :
    (c1 c2 c3 c4 : ℕ) (rest : Bytes)
    → (128 ≤ c1) × (c1 < 256)
    → (128 ≤ c2) × (c2 < 256)
    → (128 ≤ c3) × (c3 < 256)
    → (128 ≤ c4) × (c4 < 256)
    → varint_loop (c1 ∷ c2 ∷ c3 ∷ c4 ∷ rest) 1 0 1 ≡ too_long
unfolding varint_loop
four_continued c1 c2 c3 c4 rest h1 h2 h3 h4 =
    ground (arith, top_bit c1, top_bit c2, top_bit c3, top_bit c4)

-- A length field with four continuation bytes is corrupt: `push` gives nothing and drops the whole
-- buffer, with everything that came behind it in the same chunk.
push-corrupt :
    (header c1 c2 c3 c4 : ℕ) (rest : Bytes)
    → (128 ≤ c1) × (c1 < 256)
    → (128 ≤ c2) × (c2 < 256)
    → (128 ≤ c3) × (c3 < 256)
    → (128 ≤ c4) × (c4 < 256)
    → push [] (header ∷ c1 ∷ c2 ∷ c3 ∷ c4 ∷ rest) ≡ record { out = []; buf = [] }
unfolding push drain_loop finish_frame
push-corrupt header c1 c2 c3 c4 rest h1 h2 h3 h4 = ground (
  arith,
  next_frame_lem header (c1 ∷ c2 ∷ c3 ∷ c4 ∷ rest),
  four_continued c1 c2 c3 c4 rest h1 h2 h3 h4,
)
