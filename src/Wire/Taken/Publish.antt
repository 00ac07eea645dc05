-- ===== src/Wire/Taken/Publish.antt =====
-- The bodies of a PUBLISH that `decode_publish` of mqtt_wire.rs takes, and what it makes of them.
use aquilo_offline.Base.{
  ℕ, ◌+◌, ◌/◌, ◌<◌, ◌≡◌, refl, ◌∙◌, ap, arith, Option, some, none, ◌++◌, Bytes, AreBytes, length,
  Option-cases, Bool-cases, inl, inr, from_utf8_lossy, is_some, ltb, get_elem?, bit_and,
}
use aquilo_offline.Wire.Cursor.{Ahead, Ahead-zero, rest_from-Ahead}
use aquilo_offline.Wire.Decode.{
  Publish, Packet, publish, decode_publish, optional_id, u16_of, has, read_str,
}
use aquilo_offline.Wire.Layout.{id_bytes, publish_body}
use aquilo_offline.Wire.Encode.{str_field}
use aquilo_offline.Wire.Reads.{
  Reads, Reads-none, Reads-then, get_elem?-Reads, read_str-Reads, halves,
}

module _ {body : Bytes} where
  optional_id-Reads :
      (qos off : ℕ) (rest : Bytes) {o : Option ℕ} {off' : ℕ}
      → Ahead body off rest
      → AreBytes rest
      → optional_id body qos off ≡ some (o, off')
      → Reads body off' rest (id_bytes o)
        × (ltb 0 qos ≡ is_some o)
        × ((n : ℕ) → o ≡ some n → n < 65536)
  unfolding optional_id
  optional_id-Reads qos off rest {o} {off'} a b h = elim (Bool-cases (ltb 0 qos)) [
    | inr e ↦
        let h0 = rw e at h in
        let value : o ≡ none = cc in
        let same : off ≡ off' = cc in
        (rw value (rw same at (Reads-none a b)), rw value e, λ n k. cc)
    | inl e ↦
        let h0 = rw e at h in
        elim (Option-cases (get_elem? body off)) [
          | inl e1 ↦ cc (rw e1 at h0)
          | inr (hi, e1) ↦
              let h1 = rw e1 at h0 in
              elim (Option-cases (get_elem? body (off + 1))) [
                | inl e2 ↦ cc (rw e2 at h1)
                | inr (lo, e2) ↦
                    let h2 = rw e2 at h1 in
                    let (r1, high) = get_elem?-Reads rest a b e1 in
                    let (r2, low) = get_elem?-Reads r1.left r1.ahead r1.bytes e2 in
                    let (upper, lower, below) = halves hi lo high low in
                    let value : o ≡ some (u16_of hi lo) = cc in
                    let end : off + 2 ≡ off' = cc in
                    let at : off + 1 + 1 ≡ off' = omega (arith, end) in
                    (
                      rw (value, upper, lower) (rw at at (Reads-then r1 r2)),
                      rw value e,
                      λ n k. let same : u16_of hi lo ≡ n = cc in rw (← same) below,
                    )
              ]
        ]
  ]

-- A PUBLISH body as it was sent, `raw`, its topic any bytes, and what is made of it.
pub record PublishTaken (flags : ℕ) (body : Bytes) (p : Publish) : Type 0 where
  pub raw : Publish
  pub laid : body ≡ publish_body raw
  pub text : p ≡ record raw { topic = from_utf8_lossy raw.topic }
  pub short : length raw.topic < 65536
  pub qos : bit_and (flags / 2) 0x03 ≡ raw.qos
  pub retain : has flags 0x01 ≡ raw.retain
  pub with_id : ltb 0 raw.qos ≡ is_some raw.packet_id
  pub id_fits : (n : ℕ) → raw.packet_id ≡ some n → n < 65536

pub decode_publish-taken :
    (flags : ℕ) (body : Bytes) (pkt : Packet)
    → AreBytes body
    → decode_publish flags body ≡ some pkt
    → (p : Publish) × (pkt ≡ publish p) × PublishTaken flags body p
unfolding decode_publish
decode_publish-taken flags body pkt b h = elim (Option-cases (read_str body 0)) [
  | inl e ↦ cc (rw e at h)
  | inr ((topic, off1), e1) ↦
      let h1 = rw e1 at h in
      let qos = bit_and (flags / 2) 0x03 in
      elim (Option-cases (optional_id body qos off1)) [
        | inl e ↦ cc (rw e at h1)
        | inr ((packet_id, off2), e2) ↦
            let (raw, text, r1, short) = read_str-Reads body (Ahead-zero body) b e1 in
            let (r2, with_id, fits) = optional_id-Reads qos off1 r1.left r1.ahead r1.bytes e2 in
            let h2 = rw (rest_from-Ahead r2.ahead) at (rw e2 at h1) in
            let p : Publish = record {
              topic = raw;
              payload = r2.left;
              qos = qos;
              retain = has flags 0x01;
              packet_id = packet_id;
            } in
            (
              record p { topic = topic },
              cc,
              record {
                raw = p;
                laid = r1.split ∙ ap (λ l. str_field raw ++ l) r2.split;
                text = ap (λ t. record p { topic = t }) text;
                short = short;
                qos = refl;
                retain = refl;
                with_id = with_id;
                id_fits = fits;
              },
            )
      ]
]
