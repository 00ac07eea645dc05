-- ===== src/Wire/Reads.antt =====
-- The readers of mqtt_wire.rs on any body: what has been read, and what stands behind it.
use mathlib.Core.Path.{subst}
use aquilo_offline.Base.{
  ℕ, zero, suc, ◌+◌, ◌/◌, ◌%◌, ◌≤◌, ◌<◌, ◌≡◌, refl, sym, ◌∙◌, ap, arith, some, none, [], ◌∷◌, ◌++◌,
  Bytes, Str, AreBytes, length, take, drop, get_elem?, get_elem?-append_right, take-append-drop,
  drop-append_length, length-append, length-take, append_assoc, if◌then◌else◌, Option-cases,
  Bool-cases, inl, inr, from_utf8_lossy, ltb,
}
use aquilo_offline.Base.Bits.{join_bytes}
use aquilo_offline.Wire.Cursor.{Ahead, Ahead-skip, Ahead-str_field, length-Ahead}
use aquilo_offline.Wire.Decode.{u16_of, read_bytes, read_str}
use aquilo_offline.Wire.Encode.{str_field}

abbrev pub IsShort : Bytes → Type 0
IsShort s = length s < 65536

-- From `rest`, `front` has been read, and the cursor stands at `off'` behind it.
pub record Reads (body : Bytes) (off' : ℕ) (rest front : Bytes) : Type 0 where
  pub left : Bytes
  pub split : rest ≡ front ++ left
  pub ahead : Ahead body off' left
  pub bytes : AreBytes left

module _ {body : Bytes} where
  pub Reads-none :
      {off : ℕ} {rest : Bytes} → Ahead body off rest → AreBytes rest → Reads body off rest []
  Reads-none {off} {rest} a b = record { left = rest; split = refl; ahead = a; bytes = b }

  pub Reads-then :
      {o1 o2 : ℕ} {rest f1 f2 : Bytes} (r : Reads body o1 rest f1)
      → Reads body o2 r.left f2
      → Reads body o2 rest (f1 ++ f2)
  Reads-then {f1 = f1} {f2 = f2} r q = record {
    left = q.left;
    split = r.split ∙ ap (λ l. f1 ++ l) q.split ∙ sym (append_assoc f1 f2 q.left);
    ahead = q.ahead;
    bytes = q.bytes;
  }

-- The two bytes of a length, and the length that they join to.
pub halves :
    (hi lo : ℕ)
    → hi < 256
    → lo < 256
    → (u16_of hi lo / 256 % 256 ≡ hi) × (u16_of hi lo % 256 ≡ lo) × (u16_of hi lo < 65536)
unfolding u16_of
halves hi lo h l = omega (arith, join_bytes hi lo h l)

str_field_read :
    (hi lo : ℕ) (more : Bytes)
    → hi < 256
    → lo < 256
    → u16_of hi lo ≤ length more
    → (str_field (take (u16_of hi lo) more) ≡ hi ∷ lo ∷ take (u16_of hi lo) more)
      × (length (take (u16_of hi lo) more) ≡ u16_of hi lo)
unfolding str_field
str_field_read hi lo more h l k =
    let n = u16_of hi lo in
    let (high, low, below) = halves hi lo h l in
    let size : length (take n more) ≡ n = omega (arith, k, length-take n more) in
    (rw (size, high, low) refl, size)

AreBytes-drop : (n : ℕ) (xs : Bytes) → AreBytes xs → AreBytes (drop n xs)
AreBytes-drop zero xs h = h
AreBytes-drop (suc n) [] h = h
AreBytes-drop (suc n) (x ∷ xs) h = AreBytes-drop n xs h.1

module _ {body : Bytes} {off : ℕ} where
  pub get_elem?-from :
      (rest : Bytes) (k at : ℕ)
      → Ahead body off rest
      → at ≡ off + k
      → get_elem? body at ≡ get_elem? rest k
  get_elem?-from rest k at a h =
      ap (λ b. get_elem? b at) a.split
      ∙ get_elem?-append_right a.before rest at k (omega (arith, a.at, h))

  pub get_elem?-Reads :
      (rest : Bytes) {x : ℕ}
      → Ahead body off rest
      → AreBytes rest
      → get_elem? body off ≡ some x
      → Reads body (off + 1) rest (x ∷ []) × (x < 256)
  get_elem?-Reads [] {x} a b h =
      let stuck : none ≡ some x = sym (get_elem?-from [] 0 off a (omega arith)) ∙ h in cc
  get_elem?-Reads (y ∷ left) {x} a b h =
      let read : some y ≡ some x = sym (get_elem?-from (y ∷ left) 0 off a (omega arith)) ∙ h in
      let same : y ≡ x = cc in
      (
        record {
          left = left;
          split = ap (λ z. z ∷ left) same;
          ahead = Ahead-skip (y ∷ []) a;
          bytes = b.1;
        },
        rw (← same) b.0,
      )

  read_bytes_short :
      (rest : Bytes) → Ahead body off rest → length rest < 2 → read_bytes body off ≡ none
  unfolding read_bytes
  read_bytes_short [] a h = rw (get_elem?-from [] 0 off a (omega arith)) refl
  read_bytes_short (hi ∷ []) a h =
      rw
        (
          get_elem?-from (hi ∷ []) 0 off a (omega arith),
          get_elem?-from (hi ∷ []) 1 (off + 1) a refl,
        )
        refl
  read_bytes_short (hi ∷ lo ∷ more) a h = absurd (omega arith)

  read_bytes_long :
      (hi lo : ℕ) (more : Bytes)
      → Ahead body off (hi ∷ lo ∷ more)
      → read_bytes body off ≡ (
          if ltb (length more) (u16_of hi lo)
          then none
          else some (take (u16_of hi lo) more, off + 2 + u16_of hi lo))
  unfolding read_bytes
  read_bytes_long hi lo more a = ground (
    arith,
    get_elem?-from (hi ∷ lo ∷ more) 0 off a (omega arith),
    get_elem?-from (hi ∷ lo ∷ more) 1 (off + 1) a refl,
    length-Ahead a,
    a.split,
    a.at,
    append_assoc a.before (hi ∷ lo ∷ []) more,
    length-append a.before (hi ∷ lo ∷ []),
    drop-append_length (off + 2) (a.before ++ hi ∷ lo ∷ []) more,
  )

  took :
      (hi lo : ℕ) (more : Bytes) {s : Bytes} {off' : ℕ}
      → Ahead body off (hi ∷ lo ∷ more)
      → read_bytes body off ≡ some (s, off')
      → (u16_of hi lo ≤ length more)
        × (s ≡ take (u16_of hi lo) more)
        × (off' ≡ off + 2 + u16_of hi lo)
  took hi lo more {s} {off'} a h =
      let h' = sym (read_bytes_long hi lo more a) ∙ h in
      elim (Bool-cases (ltb (length more) (u16_of hi lo))) [
        | inl e ↦ cc (rw e at h')
        | inr e ↦ let h2 = rw e at h' in (ground arith, cc, cc)
      ]

  -- A field that is read stands behind its length in two bytes.
  pub read_bytes-Reads :
      (rest : Bytes) {s : Bytes} {off' : ℕ}
      → Ahead body off rest
      → AreBytes rest
      → read_bytes body off ≡ some (s, off')
      → Reads body off' rest (str_field s) × (length s < 65536)
  read_bytes-Reads [] a b h = cc (read_bytes_short [] a (omega arith))
  read_bytes-Reads (hi ∷ []) a b h = cc (read_bytes_short (hi ∷ []) a (omega arith))
  read_bytes-Reads (hi ∷ lo ∷ more) {s} {off'} a b h =
      let n = u16_of hi lo in
      let (fits, value, end) = took hi lo more a h in
      let (field, size) = str_field_read hi lo more b.0 b.1.0 fits in
      let split : hi ∷ lo ∷ more ≡ str_field (take n more) ++ drop n more =
        rw (field, take-append-drop) refl in
      let at : off' ≡ off + 2 + length (take n more) = omega (arith, end, size) in
      let ahead : Ahead body (off + 2 + length (take n more)) (drop n more) =
        Ahead-str_field (take n more) (drop n more) (rw split at a) in
      (
        record {
          left = drop n more;
          split = rw value split;
          ahead = subst (λ o. Ahead body o (drop n more)) (sym at) ahead;
          bytes = AreBytes-drop n more b.1.1;
        },
        rw value (omega (arith, size, (halves hi lo b.0 b.1.0).2)),
      )

  pub read_str-Reads :
      (rest : Bytes) {s : Str} {off' : ℕ}
      → Ahead body off rest
      → AreBytes rest
      → read_str body off ≡ some (s, off')
      → (raw : Bytes) × (s ≡ from_utf8_lossy raw)
        × Reads body off' rest (str_field raw)
        × (length raw < 65536)
  unfolding read_str
  read_str-Reads rest {s} {off'} a b h = elim (Option-cases (read_bytes body off)) [
    | inl e ↦ cc (rw e at h)
    | inr ((raw, end), e) ↦
        let h' = rw e at h in
        let text : s ≡ from_utf8_lossy raw = cc in
        let same : end ≡ off' = cc in
        let (r, short) = read_bytes-Reads rest a b e in (raw, text, rw same at r, short)
  ]
