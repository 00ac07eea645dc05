-- ===== src/Examples/Decoding.antt =====
-- Runs of the MQTT decoder on bytes that no encoder wrote.
use aquilo_offline.Wire.Decode.{decode_subscribe, read_bytes, read_str, topics_loop, u16_of}
use mathlib.Core.List.{flatten}
use aquilo_offline.Base.{◌≡◌, refl, arith, some, List, [], ◌∷◌, ◌++◌, ◌⊎◌, Bytes, from_utf8_lossy}
use aquilo_offline.Wire.Chunks.{push_all}
use aquilo_offline.Wire.Cuts.{Broken, push_all-push}
use aquilo_offline.Wire.Decode.{Packet, subscribe, decode_body}
use aquilo_offline.Wire.Stream.{push}
use aquilo_offline.Wire.Taken.{Taken, decode_body-Taken}

-- The packet id 7, and one topic without its QoS.
abbrev cut_subscribe : Bytes
cut_subscribe = 0 ∷ 7 ∷ 0 ∷ 1 ∷ b'a' ∷ []

decoded :
    decode_body 8 2 cut_subscribe
    ≡ some (subscribe (record { packet_id = 7; topics = (b'a' ∷ []) ∷ [] }))
unfolding decode_body decode_subscribe topics_loop read_str read_bytes u16_of from_utf8_lossy
decoded = refl

decode_body-Taken_example :
    Taken 8 2 cut_subscribe (subscribe (record { packet_id = 7; topics = (b'a' ∷ []) ∷ [] }))
decode_body-Taken_example =
    decode_body-Taken 8 2 cut_subscribe
      (subscribe (record { packet_id = 7; topics = (b'a' ∷ []) ∷ [] })) (omega arith) decoded

-- A ping and a corrupt length, and another ping behind them in the same chunk and the next.
abbrev chunks : List Bytes
chunks = (0xc0 ∷ 0 ∷ 0x30 ∷ 0xff ∷ 0xff ∷ []) ∷ (0xff ∷ 0xff ∷ 0xc0 ∷ []) ∷ (0xc0 ∷ 0 ∷ []) ∷ []

push_all-push_example :
    (push_all [] chunks ≡ push [] (flatten chunks))
    ⊎ ((ps : List Packet) × (extra : List Packet) × Broken (flatten chunks) ps
        × (push [] (flatten chunks) ≡ record { out = ps; buf = [] })
        × ((push_all [] chunks).out ≡ ps ++ extra))
push_all-push_example = push_all-push chunks
