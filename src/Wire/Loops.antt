-- ===== src/Wire/Loops.antt =====
-- The loops of mqtt_wire.rs that the model runs on fuel.
use aquilo_offline.Base.{
  ℕ, zero, suc, ◌+◌, ◌/◌, ◌≤◌, ◌<◌, ◌≡◌, refl, arith, ap, List, [], ◌∷◌, Bytes, Str, length, ltb,
  Bool-cases, Option, Option-cases, unwrap_or, some, false, ◌++◌, inl, inr,
}
use aquilo_offline.Wire.Decode.{read_bytes, read_str, topics_loop}
use aquilo_offline.Wire.Fields.{read_bytes_bounds}
use aquilo_offline.Wire.Encode.{encode_len}

-- A successful read ends behind its two length bytes.
read_str-after :
    (b : Bytes) (off : ℕ) (s : Str) (off' : ℕ) → read_str b off ≡ some (s, off') → off + 2 ≤ off'
unfolding read_str
read_str-after b off s off' h = elim (Option-cases (read_bytes b off)) [
  | inl e ↦ cc (rw e at h)
  | inr ((t, end), e) ↦
      let bounds = read_bytes_bounds b off t end e in
      let same = ap (λ (o : Option (Str × ℕ)). (unwrap_or o ([], 0)).1) (rw e at h) in
      omega (arith, bounds, same)
]

topics_loop_fuel :
    (m n : ℕ) (body : Bytes) (off : ℕ) (topics : List Str)
    → length body ≤ off + m
    → length body ≤ off + n
    → topics_loop m body off topics ≡ topics_loop n body off topics
unfolding topics_loop
topics_loop_fuel zero zero body off topics h k = refl
topics_loop_fuel zero (suc n) body off topics h k =
    let over : ltb off (length body) ≡ false = ground arith in rw (over, topics_loop) refl
topics_loop_fuel (suc m) zero body off topics h k =
    let over : ltb off (length body) ≡ false = ground arith in rw (over, topics_loop) refl
topics_loop_fuel (suc m) (suc n) body off topics h k = elim (Bool-cases (ltb off (length body))) [
  | inl e ↦ elim (Option-cases (read_str body off)) [
    | inl s ↦ rw (topics_loop, e, s) refl
    | inr ((topic, off'), s) ↦
        let after = read_str-after body off topic off' s in
        rw (topics_loop, e, s)
          (topics_loop_fuel m n body (off' + 1) (topics ++ topic ∷ []) (omega (arith, after))
            (omega (arith, after)))
  ]
  | inr e ↦ rw (topics_loop, e) refl
]

encode_len_fuel : (m n len : ℕ) → len < m → len < n → encode_len m len ≡ encode_len n len
unfolding encode_len
encode_len_fuel zero n len h k = absurd (omega arith)
encode_len_fuel (suc m) zero len h k = absurd (omega arith)
encode_len_fuel (suc m) (suc n) len h k = elim (Bool-cases (ltb 0 (len / 128))) [
  | inl e ↦
      let same = encode_len_fuel m n (len / 128) (ground arith) (ground arith) in rw (e, same) refl
  | inr e ↦ rw e refl
]

-- The fuel that the topics of a SUBSCRIBE and the length of a frame are given is enough, whatever the
-- body and the length: any that is larger gives the same.
pub fuel_enough :
    (body : Bytes) (m : ℕ) (topics : List Str) (n len : ℕ)
    → length body ≤ m
    → len < n
    → (topics_loop m body 2 topics ≡ topics_loop (length body) body 2 topics)
      × (encode_len n len ≡ encode_len (suc len) len)
fuel_enough body m topics n len h k = (
  topics_loop_fuel m (length body) body 2 topics (omega arith) (omega arith),
  encode_len_fuel n (suc len) len k (omega arith),
)
