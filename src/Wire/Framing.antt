-- ===== src/Wire/Framing.antt =====
-- The fixed header of mqtt_wire.rs: `frame` and `next_frame`.
use aquilo_offline.Base.{
  ℕ, zero, suc, ◌+◌, ◌-◌, ◌*◌, ◌/◌, ◌%◌, ◌^◌, ◌<◌, ◌≡◌, refl, ap, arith, [], ◌∷◌, ◌++◌, Bytes,
  length, bit_and, length-append, take-append_length, drop-append_length, append_assoc,
}
use native.Mathlib.Nat.{div-add-mod}
use aquilo_offline.Base.Bits.{low_seven, top_bit, set_top_bit}
use aquilo_offline.Wire.Decode.{decode_body, slice}
use aquilo_offline.Wire.Encode.{encode_len, frame}
use aquilo_offline.Wire.Stream.{packet, length_at, varint_loop, finish_frame, next_frame}

-- One round of the loop: on a last byte, and on a byte with the continuation bit over `g`.
last_round :
    (w mult len i : ℕ) (bs : Bytes)
    → w < 128
    → varint_loop (w ∷ bs) mult len i ≡ length_at (len + w * mult) (i + 1)
unfolding varint_loop
last_round w mult len i bs h = ground (arith, low_seven w, top_bit w)

inner_round :
    (g mult len i : ℕ) (bs : Bytes)
    → g < 128
    → i < 4
    → varint_loop ((g + 128) ∷ bs) mult len i ≡ varint_loop bs (mult * 128) (len + g * mult) (i + 1)
unfolding varint_loop
inner_round g mult len i bs h k = ground (arith, low_seven (g + 128), top_bit (g + 128))

-- The lowest seven bits of `w` and the rest, both counted from `mult`.
split_group : (w mult : ℕ) → w % 128 * mult + w / 128 * (mult * 128) ≡ w * mult
split_group w mult = omega (arith, ap (λ (t : ℕ). t * mult) (div-add-mod w 128))

varint_loop-encode_len :
    (k fuel w mult len i : ℕ) (bs : Bytes)
    → w < 128 ^ suc k
    → w < fuel
    → i + k < 5
    → varint_loop (encode_len fuel w ++ bs) mult len i
      ≡ length_at (len + w * mult) (i + length (encode_len fuel w))
unfolding encode_len
varint_loop-encode_len k zero w mult len i bs h f b = absurd (omega arith)
varint_loop-encode_len zero (suc fuel) w mult len i bs h f b =
    ground (arith, last_round w mult len i bs)
varint_loop-encode_len (suc k) (suc fuel) w mult len i bs h f b = ground (
  arith,
  set_top_bit (w % 128),
  last_round w mult len i bs,
  inner_round (w % 128) mult len i (encode_len fuel (w / 128) ++ bs),
  split_group w mult,
  varint_loop-encode_len k fuel (w / 128) (mult * 128) (len + w % 128 * mult) (i + 1) bs
      (omega arith),
)

-- The two bytes that `next_frame` asks for first are a case of its varint loop.
pub next_frame_lem :
    (b0 : ℕ) (xs : Bytes) → next_frame (b0 ∷ xs) ≡ finish_frame b0 (b0 ∷ xs) (varint_loop xs 1 0 1)
unfolding next_frame finish_frame varint_loop
next_frame_lem b0 [] = refl
next_frame_lem b0 (b1 ∷ rest) = refl

abbrev pub max_body : ℕ
max_body = 128 ^ 4

pub length-frame_pos : (header : ℕ) (body : Bytes) → 0 < length (frame header body)
unfolding frame
length-frame_pos header body = omega arith

slice_body :
    (header : ℕ) (lens body rest : Bytes)
    → slice (header ∷ (lens ++ (body ++ rest))) (1 + length lens) (1 + length lens + length body)
      ≡ body
slice_body header lens body rest = ground (
  arith,
  drop-append_length (1 + length lens) (header ∷ lens) (body ++ rest),
  take-append_length (1 + length lens + length body - (1 + length lens)) body rest,
)

-- `next_frame` splits off exactly the frame that `frame` wrote, whatever follows it, and hands the
-- frame's body on: for every header byte and every body shorter than 128 ^ 4 bytes.
pub next_frame-frame :
    (header : ℕ) (body rest : Bytes)
    → length body < max_body
    → next_frame (frame header body ++ rest)
      ≡ packet (decode_body (header / 16) (bit_and header 0x0f) body) (length (frame header body))
unfolding frame finish_frame
next_frame-frame header body rest h =
    let n = length body in
    let lens = encode_len (suc n) n in
    ground (
      arith,
      append_assoc lens body rest,
      next_frame_lem header (lens ++ (body ++ rest)),
      varint_loop-encode_len 3 (suc n) n 1 0 1 (body ++ rest) (omega arith),
      slice_body header lens body rest,
      length-append lens body,
      length-append lens (body ++ rest),
      length-append body rest,
    )
