-- ===== src/Wire/Fields.antt =====
-- What `read_bytes` and `read_str` return, on any input and on what the encoders write.
use aquilo_offline.Base.{
  ℕ, ◌+◌, ◌-◌, ◌/◌, ◌%◌, ◌≤◌, ◌<◌, ◌≡◌, arith, some, [], ◌∷◌, ◌++◌, Bytes, Str, length, get_elem?,
  length-append, take-append_length, drop-append_length, get_elem?-append_right, lengths,
  Option-cases, inl, inr, append_assoc,
}
use aquilo_offline.Base.Bits.{join_bytes}
use aquilo_offline.Wire.Decode.{u16_of, slice, read_bytes}
use aquilo_offline.Wire.Encode.{str_field}

-- The two bytes that the encoders write for a `u16` join to it again.
pub u16_of-halves : (n : ℕ) → n < 65536 → u16_of (n / 256 % 256) (n % 256) ≡ n
unfolding u16_of
u16_of-halves n h = omega (arith, join_bytes (n / 256 % 256) (n % 256) (omega arith) (omega arith))

pub length-str_field : (s : Str) → length (str_field s) ≡ 2 + length s
unfolding str_field
length-str_field s = omega arith

slice_bounds :
    (b : Bytes) (start end : ℕ)
    → start ≤ end
    → end ≤ length b
    → length (slice b start end) ≡ end - start
slice_bounds b start end h k = grind (arith, lengths)

-- A successful read lies inside the buffer, and moves the offset by the two length bytes and what was read.
pub read_bytes_bounds :
    (b : Bytes) (off : ℕ) (s : Bytes) (off' : ℕ)
    → read_bytes b off ≡ some (s, off')
    → (off' ≡ off + 2 + length s) × (off' ≤ length b)
unfolding read_bytes
read_bytes_bounds b off s off' h = elim (Option-cases (get_elem? b off)) [
  | inl e ↦ cc (rw e at h)
  | inr (hi, e) ↦ elim (Option-cases (get_elem? b (off + 1))) [
    | inl e' ↦ cc (rw (e, e') at h)
    | inr (lo, e') ↦
        let start = off + 2 in
        let h' = rw (e, e') at h in ground (arith, slice_bounds b start (start + u16_of hi lo), h')
  ]
]

pub read_bytes-str_field :
    (b pre : Bytes) (s : Str) (post : Bytes) (off : ℕ)
    → b ≡ pre ++ (str_field s ++ post)
    → off ≡ length pre
    → length s < 65536
    → read_bytes b off ≡ some (s, off + 2 + length s)
unfolding read_bytes str_field
read_bytes-str_field b pre s post off e o h = ground (
  arith,
  e,
  u16_of-halves (length s),
  get_elem?-append_right pre (str_field s ++ post) off 0,
  get_elem?-append_right pre (str_field s ++ post) (off + 1) 1,
  drop-append_length (off + 2) (pre ++ hi ∷ lo ∷ []) (s ++ post),
  append_assoc pre (hi ∷ lo ∷ []) (s ++ post),
  take-append_length (off + 2 + length s - (off + 2)) s post,
  length-append pre (str_field s ++ post),
  length-append pre (hi ∷ lo ∷ []),
  length-append s post,
)
  where
    hi : ℕ
    hi = length s / 256 % 256

    lo : ℕ
    lo = length s % 256
