-- ===== src/Wire/Cursor.antt =====
-- A cursor into a body: what stands from an offset on, and how the readers move it.
use aquilo_offline.Base.{
  lengths, ℕ, ◌+◌, ◌<◌, ◌≡◌, refl, sym, ◌∙◌, arith, some, [], ◌∷◌, ◌++◌, Bytes, IsText,
  from_utf8_lossy, from_utf8_lossy-IsText, length, get_elem?, length-append, drop-append_length,
  get_elem?-append_right, append_assoc, false, ltb,
}
use aquilo_offline.Wire.Decode.{read_bytes, read_str, rest_from}
use aquilo_offline.Wire.Encode.{str_field}
use aquilo_offline.Wire.Fields.{read_bytes-str_field, length-str_field}

-- `rest` is what stands in `body` from `off` on.
pub record Ahead (body : Bytes) (off : ℕ) (rest : Bytes) : Type 0 where
  pub before : Bytes
  pub split : body ≡ before ++ rest
  pub at : off ≡ length before

pub Ahead-zero : (body : Bytes) → Ahead body 0 body
Ahead-zero body = record { before = []; split = refl; at = refl }

module _ {body : Bytes} {off : ℕ} where
  pub Ahead-skip :
      (x : Bytes) {rest : Bytes} → Ahead body off (x ++ rest) → Ahead body (off + length x) rest
  Ahead-skip x {rest} a = record {
    before = a.before ++ x;
    split = a.split ∙ sym (append_assoc a.before x rest);
    at = grind (arith, lengths, a.at);
  }

  pub Ahead-cons : {x : ℕ} {rest : Bytes} → Ahead body off (x ∷ rest) → Ahead body (off + 1) rest
  Ahead-cons {x} a = Ahead-skip (x ∷ []) a

  pub get_elem?-Ahead :
      {x : ℕ} {rest : Bytes} → Ahead body off (x ∷ rest) → get_elem? body off ≡ some x
  get_elem?-Ahead {x} {rest} a =
      ground (arith, a.split, a.at, get_elem?-append_right a.before (x ∷ rest) off 0)

  pub length-Ahead : {rest : Bytes} → Ahead body off rest → length body ≡ off + length rest
  length-Ahead {rest} a = grind (arith, lengths, a.split, a.at)

  pub Ahead-le : {rest : Bytes} → Ahead body off rest → ltb (length body) off ≡ false
  Ahead-le {rest} a = grind (arith, lengths, a.split, a.at)

  pub rest_from-Ahead : {rest : Bytes} → Ahead body off rest → rest_from body off ≡ some rest
  unfolding rest_from
  rest_from-Ahead {rest} a =
      ground
        (arith, a.split, a.at, length-append a.before rest, drop-append_length off a.before rest)

  pub read_bytes-Ahead :
      (s rest : Bytes)
      → Ahead body off (str_field s ++ rest)
      → length s < 65536
      → read_bytes body off ≡ some (s, off + 2 + length s)
  read_bytes-Ahead s rest a h = read_bytes-str_field body a.before s rest off a.split a.at h

  pub Ahead-str_field :
      (s rest : Bytes) → Ahead body off (str_field s ++ rest) → Ahead body (off + 2 + length s) rest
  Ahead-str_field s rest a =
      let e : off + length (str_field s) ≡ off + 2 + length s = omega (arith, length-str_field s) in
      rw e at (Ahead-skip (str_field s) {rest = rest} a)

  pub read_str-Ahead_raw :
      (s rest : Bytes)
      → Ahead body off (str_field s ++ rest)
      → length s < 65536
      → read_str body off ≡ some (from_utf8_lossy s, off + 2 + length s)
  unfolding read_str
  read_str-Ahead_raw s rest a h = rw (read_bytes-Ahead s rest a h) refl

  pub read_str-Ahead :
      (s rest : Bytes)
      → Ahead body off (str_field s ++ rest)
      → length s < 65536
      → IsText s
      → read_str body off ≡ some (s, off + 2 + length s)
  unfolding read_str
  read_str-Ahead s rest a h t = rw (read_bytes-Ahead s rest a h, from_utf8_lossy-IsText s t)
