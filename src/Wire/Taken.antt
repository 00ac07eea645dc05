-- ===== src/Wire/Taken.antt =====
-- The bodies that `decode_body` of mqtt_wire.rs takes.
pub mod Fields
pub mod Identity
pub mod Connect
pub mod Publish
pub mod Subscribe
use mathlib.Core.Path.{subst}
use aquilo_offline.Base.{
  ℕ, ◌≡◌, ◌≢◌, refl, sym, ◌∙◌, arith, true, false, some, Bytes, AreBytes, ◌==◌, Bool-cases, inl,
  inr,
}
use aquilo_offline.Wire.Decode.{
  Packet, connect, publish, subscribe, ping_req, disconnect, other, decode_body,
}
use aquilo_offline.Wire.Taken.Connect.{ConnectTaken, decode_connect-taken}
use aquilo_offline.Wire.Taken.Publish.{PublishTaken, decode_publish-taken}
use aquilo_offline.Wire.Taken.Subscribe.{SubscribeTaken, decode_subscribe-taken}

-- What a packet says of the kind, the flags and the body that it was decoded from.
abbrev pub Taken : ℕ → ℕ → Bytes → Packet → Type 0
Taken kind flags body (connect c) = (kind ≡ 1) × ConnectTaken body c
Taken kind flags body (publish p) = (kind ≡ 3) × PublishTaken flags body p
Taken kind flags body (subscribe s) = (kind ≡ 8) × SubscribeTaken body s
Taken kind flags body ping_req = kind ≡ 12
Taken kind flags body disconnect = kind ≡ 14
Taken kind flags body (other n) =
    (n ≡ kind) × (kind ≢ 1) × (kind ≢ 3) × (kind ≢ 8) × (kind ≢ 12) × (kind ≢ 14)

is : (kind n : ℕ) → (kind == n) ≡ true → kind ≡ n
is kind n e = ground arith

is_not : (kind n : ℕ) → (kind == n) ≡ false → kind ≢ n
is_not kind n e same = ground arith

-- Whatever body of bytes is decoded as a CONNECT, a PUBLISH or a SUBSCRIBE starts with the fields that
-- MQTT lays out for its kind and flags, with lengths that fit their two bytes, and the packet has these
-- fields, with texts read as UTF-8 and what is not UTF-8 replaced. The fields of a PUBLISH make up the
-- whole body; behind those of a CONNECT there may be any bytes, and the last topic of a SUBSCRIBE may
-- lack its QoS. Only these fields are settled: the protocol name and level of a CONNECT, a QoS of 3, and
-- a SUBSCRIBE without a topic are taken as they come, and of a PINGREQ, a DISCONNECT and a packet of
-- another kind the kind is settled, and the body is not looked at.
pub decode_body-Taken :
    (kind flags : ℕ) (body : Bytes) (pkt : Packet)
    → AreBytes body
    → decode_body kind flags body ≡ some pkt
    → Taken kind flags body pkt
unfolding decode_body
decode_body-Taken kind flags body pkt b h = elim (Bool-cases (kind == 1)) [
  | inl e ↦
      let (c, same, t) = decode_connect-taken body pkt b (rw e at h) in
      subst (Taken kind flags body) (sym same) (is kind 1 e, t)
  | inr e1 ↦
      let h1 = rw e1 at h in
      elim (Bool-cases (kind == 3)) [
        | inl e ↦
            let (p, same, t) = decode_publish-taken flags body pkt b (rw e at h1) in
            subst (Taken kind flags body) (sym same) (is kind 3 e, t)
        | inr e3 ↦
            let h3 = rw e3 at h1 in
            elim (Bool-cases (kind == 8)) [
              | inl e ↦
                  let (s, same, t) = decode_subscribe-taken body pkt b (rw e at h3) in
                  subst (Taken kind flags body) (sym same) (is kind 8 e, t)
              | inr e8 ↦
                  let h8 = rw e8 at h3 in
                  elim (Bool-cases (kind == 12)) [
                    | inl e ↦
                        let same : pkt ≡ ping_req = cc (rw e at h8) in
                        subst (Taken kind flags body) (sym same) (is kind 12 e)
                    | inr e12 ↦
                        let h12 = rw e12 at h8 in
                        elim (Bool-cases (kind == 14)) [
                          | inl e ↦
                              let same : pkt ≡ disconnect = cc (rw e at h12) in
                              subst (Taken kind flags body) (sym same) (is kind 14 e)
                          | inr e14 ↦
                              let same : pkt ≡ other kind = cc (rw e14 at h12) in
                              subst (Taken kind flags body) (sym same) (
                                refl,
                                is_not kind 1 e1,
                                is_not kind 3 e3,
                                is_not kind 8 e8,
                                is_not kind 12 e12,
                                is_not kind 14 e14,
                              )
                        ]
                  ]
            ]
      ]
]
