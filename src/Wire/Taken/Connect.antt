-- ===== src/Wire/Taken/Connect.antt =====
-- The bodies of a CONNECT that `decode_connect` of mqtt_wire.rs takes, and what it makes of them.
use mathlib.Core.Option
use aquilo_offline.Base.{
  ℕ, ◌+◌, ◌≡◌, sym, ◌∙◌, ap, some, ◌∷◌, ◌++◌, Bytes, AreBytes, length, Option-cases, Bool-cases,
  inl, inr, from_utf8_lossy, is_some, ltb, get_elem?, false, append_assoc,
}
use aquilo_offline.Wire.Cursor.{Ahead, Ahead-zero}
use aquilo_offline.Wire.Decode.{Connect, connect, Packet, decode_connect, read_bytes, has}
use aquilo_offline.Wire.Encode.{str_field}
use aquilo_offline.Wire.Layout.{opt_bytes, will_bytes, ConnectHeader, connect_body, FitsWill}
use aquilo_offline.Wire.Reads.{IsShort, read_bytes-Reads}
use aquilo_offline.Wire.Taken.Identity.{IdentityTaken, decode_identity}
use aquilo_offline.Wire.Taken.Fields.{ShortField, header-Reads}

-- A CONNECT body as it was sent, `raw`, its texts any bytes, and what is made of it. Nothing is asked
-- of the bytes behind the last field.
pub record ConnectTaken (body : Bytes) (c : Connect) : Type 0 where
  pub header : ConnectHeader
  pub raw : Connect
  pub behind : Bytes
  pub laid : body ≡ connect_body header raw ++ behind
  pub client_id : c.client_id ≡ from_utf8_lossy raw.client_id
  pub username : c.username ≡ Option.map from_utf8_lossy raw.username
  pub password : c.password ≡ Option.map from_utf8_lossy raw.password
  pub will_flag : has header.flags 0x04 ≡ is_some header.will
  pub username_flag : has header.flags 0x80 ≡ is_some raw.username
  pub password_flag : has header.flags 0x40 ≡ is_some raw.password
  pub short : IsShort header.protocol × IsShort raw.client_id
  pub short_fields : FitsWill header.will × ShortField raw.username × ShortField raw.password

connect_body-append :
    (k : ConnectHeader) (c : Connect) (behind : Bytes)
    → connect_body k c ++ behind
      ≡ str_field k.protocol
        ++ (k.level
            ∷ k.flags
            ∷ k.keep_hi
            ∷ k.keep_lo
            ∷ (str_field c.client_id
                ++ (will_bytes k.will
                    ++ (opt_bytes c.username ++ (opt_bytes c.password ++ behind)))))
connect_body-append k c behind = simp append_assoc

connect_taken :
    (body : Bytes) {off1 level flags : ℕ} {name : Bytes} (c : Connect)
    → AreBytes body
    → read_bytes body 0 ≡ some (name, off1)
    → get_elem? body off1 ≡ some level
    → get_elem? body (off1 + 1) ≡ some flags
    → ltb (length body) (off1 + 1 + 1 + 2) ≡ false
    → ((rest : Bytes)
        → Ahead body (off1 + 1 + 1 + 2) rest
        → AreBytes rest
        → IdentityTaken body flags (off1 + 1 + 1 + 2) rest c)
    → ConnectTaken body c
connect_taken body {off1} {level} {flags} {name = name} c b e0 e1 e2 fits identity =
    let (r0, short0) = read_bytes-Reads body (Ahead-zero body) b e0 in
    let (hi, lo, r1) = header-Reads off1 r0.left r0.ahead r0.bytes e1 e2 fits in
    let t = identity r1.left r1.ahead r1.bytes in
    record {
      header = record {
        protocol = name;
        level = level;
        flags = flags;
        keep_hi = hi;
        keep_lo = lo;
        will = t.will;
      };
      raw = t.raw;
      behind = t.behind;
      laid =
          r0.split
          ∙ ap (λ l. str_field name ++ l) (r1.split ∙ ap (λ l. level ∷ flags ∷ hi ∷ lo ∷ l) t.laid)
          ∙ sym (connect_body-append _ t.raw t.behind);
      client_id = t.client_id;
      username = t.username;
      password = t.password;
      will_flag = t.will_flag;
      username_flag = t.username_flag;
      password_flag = t.password_flag;
      short = (short0, t.short);
      short_fields = t.short_fields;
    }

pub decode_connect-taken :
    (body : Bytes) (pkt : Packet)
    → AreBytes body
    → decode_connect body ≡ some pkt
    → (c : Connect) × (pkt ≡ connect c) × ConnectTaken body c
unfolding decode_connect
decode_connect-taken body pkt b h = elim (Option-cases (read_bytes body 0)) [
  | inl e ↦ cc (rw e at h)
  | inr ((name, off1), e0) ↦
      let h0 = rw e0 at h in
      elim (Option-cases (get_elem? body off1)) [
        | inl e ↦ cc (rw e at h0)
        | inr (level, e1) ↦
            let h1 = rw e1 at h0 in
            elim (Option-cases (get_elem? body (off1 + 1))) [
              | inl e ↦ cc (rw e at h1)
              | inr (flags, e2) ↦
                  let h2 = rw e2 at h1 in
                  elim (Bool-cases (ltb (length body) (off1 + 1 + 1 + 2))) [
                    | inl e ↦ cc (rw e at h2)
                    | inr fits ↦
                        let (c, same, t) =
                          decode_identity body flags (off1 + 1 + 1 + 2) pkt (rw fits at h2) in
                        (c, same, connect_taken body c b e0 e1 e2 fits t)
                  ]
            ]
      ]
]
