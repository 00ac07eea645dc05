-- ===== src/Wire/Credentials.antt =====
-- A CONNECT: its layout and `decode_connect` of mqtt_wire.rs.
use mathlib.Core.Option
use aquilo_offline.Base.{
  from_utf8_lossy, ℕ, ◌+◌, ◌≡◌, refl, Option, some, none, [], ◌∷◌, ◌++◌, Bytes, get_elem?,
  append_assoc, is_some, append-nil,
}
use aquilo_offline.Wire.Decode.{Connect, connect, decode_connect, optional_str, skip_will, has}
use aquilo_offline.Wire.Encode.{str_field}
use aquilo_offline.Wire.Cursor.{
  Ahead, Ahead-zero, Ahead-skip, Ahead-cons, get_elem?-Ahead, read_bytes-Ahead, Ahead-str_field,
  read_str-Ahead_raw, Ahead-le,
}
use aquilo_offline.Wire.Layout.{
  opt_bytes, will_bytes, ConnectHeader, connect_tail, connect_body, FitsField, FitsWill, IsConnect,
}

-- The fields of a CONNECT as they are read: as UTF-8, with what is not UTF-8 replaced.
abbrev pub read_as_text : Connect → Connect
read_as_text c = record {
  client_id = from_utf8_lossy c.client_id;
  username = Option.map from_utf8_lossy c.username;
  password = Option.map from_utf8_lossy c.password;
}

optional_str-Ahead :
    (body : Bytes) (flags bit off : ℕ) (o : Option Bytes) (rest : Bytes)
    → Ahead body off (opt_bytes o ++ rest)
    → has flags bit ≡ is_some o
    → FitsField o
    → (off' : ℕ) × (optional_str body flags bit off ≡ some (Option.map from_utf8_lossy o, off'))
      × Ahead body off' rest
unfolding optional_str
optional_str-Ahead body flags bit off none rest a w fits = (off, rw w refl, a)
optional_str-Ahead body flags bit off (some s) rest a w fits =
    (_, rw (w, read_str-Ahead_raw s rest a fits), Ahead-str_field s rest a)

skip_will-Ahead :
    (body : Bytes) (flags off : ℕ) (o : Option (Bytes × Bytes)) (rest : Bytes)
    → Ahead body off (will_bytes o ++ rest)
    → has flags 0x04 ≡ is_some o
    → FitsWill o
    → (off' : ℕ) × (skip_will body flags off ≡ some off') × Ahead body off' rest
unfolding skip_will
skip_will-Ahead body flags off none rest a w fits = (off, rw w refl, a)
skip_will-Ahead body flags off (some (t, m)) rest a w fits =
    let a' = rw append_assoc at a in
    let a1 = Ahead-str_field t (str_field m ++ rest) a' in
    (
      _,
      rw (w, read_bytes-Ahead t (str_field m ++ rest) a' fits.0, read_bytes-Ahead m rest a1 fits.1),
      Ahead-str_field m rest a1,
    )

-- The header's four bytes behind the protocol name.
connect_header-Ahead :
    (body : Bytes) (off : ℕ) (k : ConnectHeader) (rest : Bytes)
    → Ahead body off (k.level ∷ k.flags ∷ k.keep_hi ∷ k.keep_lo ∷ rest)
    → (get_elem? body off ≡ some k.level)
      × (get_elem? body (off + 1) ≡ some k.flags)
      × Ahead body (off + 1 + 1 + 2) rest
connect_header-Ahead body off k rest a =
    let a1 = Ahead-cons a in
    let a2 = Ahead-cons a1 in
    (get_elem?-Ahead a, get_elem?-Ahead a1, Ahead-skip (k.keep_hi ∷ k.keep_lo ∷ []) a2)

decode_connect_at :
    (body : Bytes) (k : ConnectHeader) (c : Connect)
    → Ahead body 0 (connect_body k c)
    → IsConnect k c
    → decode_connect body ≡ some (connect (read_as_text c))
unfolding decode_connect
decode_connect_at body k c a h =
    let client = str_field c.client_id ++ connect_tail k c in
    let users = opt_bytes c.username ++ opt_bytes c.password in
    let a1 = Ahead-str_field k.protocol (k.level ∷ k.flags ∷ k.keep_hi ∷ k.keep_lo ∷ client) a in
    let (level, flags, a2) = connect_header-Ahead body _ k client a1 in
    let a3 = Ahead-str_field c.client_id (connect_tail k c) a2 in
    let (o4, will, a4) = skip_will-Ahead body k.flags _ k.will users a3 h.will h.will_fits in
    let (o5, user, a5) =
      optional_str-Ahead body k.flags 0x80 o4 c.username (opt_bytes c.password) a4 h.username
        h.username_fits in
    let (o6, pass, a6) =
      optional_str-Ahead body k.flags 0x40 o5 c.password [] (rw append-nil a5) h.password
        h.password_fits in
    rw (
      read_bytes-Ahead k.protocol (k.level ∷ k.flags ∷ k.keep_hi ∷ k.keep_lo ∷ client) a h.protocol,
      level,
      flags,
      Ahead-le a2,
      read_str-Ahead_raw c.client_id (connect_tail k c) a2 h.client_id,
      will,
      user,
      pass,
    )

-- Every CONNECT laid out as MQTT says, with any subset of will, user name and password announced by
-- its flags and with any bytes in its fields, each short enough for its two length bytes, decodes to
-- its client id, user name and password, read as UTF-8 with what is not UTF-8 replaced.
pub decode_connect_body :
    (k : ConnectHeader) (c : Connect)
    → IsConnect k c
    → decode_connect (connect_body k c) ≡ some (connect (read_as_text c))
decode_connect_body k c h =
    decode_connect_at (connect_body k c) k c (Ahead-zero (connect_body k c)) h
