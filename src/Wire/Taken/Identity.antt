-- ===== src/Wire/Taken/Identity.antt =====
-- The end of `decode_connect` of mqtt_wire.rs on any body: from the client id on.
use mathlib.Core.Option
use aquilo_offline.Base.{
  ℕ, ◌≡◌, ◌∙◌, ap, Option, some, ◌++◌, Bytes, AreBytes, Option-cases, inl, inr, from_utf8_lossy,
  is_some, ◌>>=◌,
}
use aquilo_offline.Wire.Cursor.{Ahead}
use aquilo_offline.Wire.Decode.{Connect, connect, Packet, skip_will, optional_str, has, read_str}
use aquilo_offline.Wire.Encode.{str_field}
use aquilo_offline.Wire.Layout.{opt_bytes, will_bytes, FitsWill}
use aquilo_offline.Wire.Reads.{IsShort, read_str-Reads}
use aquilo_offline.Wire.Taken.Fields.{ShortField, optional_str-Reads, skip_will-Reads}

-- The fields behind the header, from the client id on.
pub record IdentityTaken (body : Bytes) (flags off : ℕ) (rest : Bytes) (c : Connect) : Type 0 where
  pub raw : Connect
  pub will : Option (Bytes × Bytes)
  pub behind : Bytes
  pub laid :
      rest
      ≡ str_field raw.client_id
        ++ (will_bytes will ++ (opt_bytes raw.username ++ (opt_bytes raw.password ++ behind)))
  pub client_id : c.client_id ≡ from_utf8_lossy raw.client_id
  pub username : c.username ≡ Option.map from_utf8_lossy raw.username
  pub password : c.password ≡ Option.map from_utf8_lossy raw.password
  pub will_flag : has flags 0x04 ≡ is_some will
  pub username_flag : has flags 0x80 ≡ is_some raw.username
  pub password_flag : has flags 0x40 ≡ is_some raw.password
  pub short : IsShort raw.client_id
  pub short_fields : FitsWill will × ShortField raw.username × ShortField raw.password

identity-taken :
    (body : Bytes) (flags off : ℕ) (rest : Bytes) (c : Connect) {off3 off4 off5 off6 : ℕ}
    → Ahead body off rest
    → AreBytes rest
    → read_str body off ≡ some (c.client_id, off3)
    → skip_will body flags off3 ≡ some off4
    → optional_str body flags 0x80 off4 ≡ some (c.username, off5)
    → optional_str body flags 0x40 off5 ≡ some (c.password, off6)
    → IdentityTaken body flags off rest c
identity-taken body flags off rest c {off3} {off4} {off5} a b e3 e4 e5 e6 =
    let (client_id, text3, r3, short3) = read_str-Reads rest a b e3 in
    let (will, r4, flag4, short4) = skip_will-Reads flags off3 r3.left r3.ahead r3.bytes e4 in
    let (username, text5, r5, flag5, short5) =
      optional_str-Reads flags 0x80 off4 r4.left r4.ahead r4.bytes e5 in
    let (password, text6, r6, flag6, short6) =
      optional_str-Reads flags 0x40 off5 r5.left r5.ahead r5.bytes e6 in
    record {
      raw = record { client_id = client_id; username = username; password = password };
      will = will;
      behind = r6.left;
      laid =
          r3.split
          ∙ ap (λ l. str_field client_id ++ l)
              (r4.split
                ∙ ap (λ l. will_bytes will ++ l)
                    (r5.split ∙ ap (λ l. opt_bytes username ++ l) r6.split));
      client_id = text3;
      username = text5;
      password = text6;
      will_flag = flag4;
      username_flag = flag5;
      password_flag = flag6;
      short = short3;
      short_fields = (short4, short5, short6);
    }

-- The rest of `decode_connect`, from the client id on.
abbrev pub identity_from : Bytes → ℕ → ℕ → Option Packet
identity_from body flags off2 = do
  (client_id, off3) ← read_str body off2
  off4 ← skip_will body flags off3
  (username, off5) ← optional_str body flags 0x80 off4
  (password, off6) ← optional_str body flags 0x40 off5
  some (connect (record { client_id = client_id; username = username; password = password }))

pub decode_identity :
    (body : Bytes) (flags off2 : ℕ) (pkt : Packet)
    → identity_from body flags off2 ≡ some pkt
    → (c : Connect) × (pkt ≡ connect c)
      × ((rest : Bytes)
          → Ahead body off2 rest
          → AreBytes rest
          → IdentityTaken body flags off2 rest c)
decode_identity body flags off2 pkt h = elim (Option-cases (read_str body off2)) [
  | inl e ↦ cc (rw e at h)
  | inr ((client_id, off3), e3) ↦
      let h3 = rw e3 at h in
      elim (Option-cases (skip_will body flags off3)) [
        | inl e ↦ cc (rw e at h3)
        | inr (off4, e4) ↦
            let h4 = rw e4 at h3 in
            elim (Option-cases (optional_str body flags 0x80 off4)) [
              | inl e ↦ cc (rw e at h4)
              | inr ((username, off5), e5) ↦
                  let h5 = rw e5 at h4 in
                  elim (Option-cases (optional_str body flags 0x40 off5)) [
                    | inl e ↦ cc (rw e at h5)
                    | inr ((password, off6), e6) ↦
                        let h6 = rw e6 at h5 in
                        let c : Connect = record {
                          client_id = client_id;
                          username = username;
                          password = password;
                        } in
                        (c, cc, λ rest a b. identity-taken body flags off2 rest c a b e3 e4 e5 e6)
                  ]
            ]
      ]
]
