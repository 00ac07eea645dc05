-- ===== src/Wire/Stream.antt =====
-- `Decoder` and `next_frame` of mqtt_wire.rs: bytes in, complete packets out.
use aquilo_offline.Base.{
  ℕ, zero, suc, ◌+◌, ◌*◌, ◌/◌, bit_and, Option, none, some, List, [], ◌∷◌, ◌++◌, Bytes, ltb, leb,
  ◌==◌, if◌then◌else◌, length, drop,
}
use aquilo_offline.Wire.Decode.{Packet, decode_body, slice}

pub data Frame : Type 0 where
  packet : Option Packet → ℕ → Frame
  incomplete corrupt : Frame

-- What the varint loop ends with: the length and the index behind it, or one of the early returns.
pub data Varint : Type 0 where
  length_at : ℕ → ℕ → Varint
  cut too_long : Varint

-- The loop over `mult`, `len` and `i`; the list is `buf` from index `i` on. `i` stops at 5, so that
-- `len` stays below 2 ^ 28.
unfoldable pub varint_loop : Bytes → ℕ → ℕ → ℕ → Varint
varint_loop [] mult len i = cut
varint_loop (b ∷ bs) mult len i =
    let len' = len + bit_and b 0x7f * mult in
    let more = varint_loop bs (mult * 128) len' (i + 1) in
    if bit_and b 0x80 == 0 then length_at len' (i + 1) else if leb 5 (i + 1) then too_long else more

unfoldable pub finish_frame : ℕ → Bytes → Varint → Frame
finish_frame b0 buf cut = incomplete
finish_frame b0 buf too_long = corrupt
finish_frame b0 buf (length_at len i) =
    if ltb (length buf) (i + len)
    then incomplete
    else packet (decode_body (b0 / 16) (bit_and b0 0x0f) (slice buf i (i + len))) (i + len)

unfoldable pub next_frame : Bytes → Frame
next_frame [] = incomplete
next_frame (b0 ∷ []) = incomplete
next_frame (b0 ∷ b1 ∷ rest) = finish_frame b0 (b0 ∷ b1 ∷ rest) (varint_loop (b1 ∷ rest) 1 0 1)

-- The packets that came out, and the new buffer.
pub record Drained : Type 0 where
  pub out : List Packet
  pub buf : Bytes

abbrev pub emit : Option Packet → List Packet → List Packet
emit none out = out
emit (some p) out = out ++ p ∷ []

-- The loop of `push`, on fuel: a frame takes two bytes at least, so the length of the buffer is
-- enough.
unfoldable pub drain_loop : ℕ → Bytes → List Packet → Drained
drain_loop zero buf out = record { out = out; buf = buf }
drain_loop (suc fuel) buf out = elim (next_frame buf) [
  | packet pkt total ↦ drain_loop fuel (drop total buf) (emit pkt out)
  | incomplete ↦ record { out = out; buf = buf }
  | corrupt ↦ record { out = out; buf = [] }
]

-- A `Decoder` is its buffer.
unfoldable pub push : Bytes → Bytes → Drained
push buf chunk = drain_loop (length (buf ++ chunk)) (buf ++ chunk) []
