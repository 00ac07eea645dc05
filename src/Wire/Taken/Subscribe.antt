-- ===== src/Wire/Taken/Subscribe.antt =====
-- The bodies of a SUBSCRIBE that `decode_subscribe` of mqtt_wire.rs takes, and what it makes of them.
use mathlib.Core.List.{map}
use aquilo_offline.Base.{
  ℕ, zero, suc, ◌+◌, ◌≤◌, ◌<◌, ◌≡◌, refl, sym, ◌∙◌, ap, arith, Option, some, none, List, [], ◌∷◌,
  ◌++◌, Bytes, Str, AreBytes, length, length-append, append_assoc, Option-cases, inl, inr,
  from_utf8_lossy, ltb, All, true, false, append-nil, ◌⊎◌,
}
use aquilo_offline.Wire.Cursor.{Ahead, Ahead-zero, Ahead-cons, length-Ahead}
use aquilo_offline.Wire.Decode.{
  Subscribe, Packet, subscribe, decode_subscribe, topics_loop, u16_of, read_str,
}
use aquilo_offline.Wire.Layout.{id_bytes, opt_bytes, topic_bytes}
use aquilo_offline.Wire.Encode.{str_field}
use aquilo_offline.Wire.Reads.{IsShort, read_str-Reads, halves}

topics_loop_end :
    (fuel : ℕ) (body : Bytes) (off : ℕ) (out : List Str)
    → length body ≤ off
    → topics_loop fuel body off out ≡ some out
unfolding topics_loop
topics_loop_end zero body off out h = refl
topics_loop_end (suc fuel) body off out h =
    let over : ltb off (length body) ≡ false = ground arith in rw (over, topics_loop) refl

Bytes-cases : (b : Bytes) → (b ≡ []) ⊎ ((q : ℕ) × (left : Bytes) × (b ≡ q ∷ left))
Bytes-cases [] = inl refl
Bytes-cases (q ∷ left) = inr (q, left, refl)

-- The texts of a SUBSCRIBE as they were sent: the last one may lack the byte of its QoS.
abbrev pub sent_topics : List (Bytes × ℕ) → Option Bytes → List Bytes
sent_topics [] none = []
sent_topics [] (some s) = s ∷ []
sent_topics ((s, q) ∷ ts) last = s ∷ sent_topics ts last

-- What the loop over the topics reads from the bytes that are left.
record TopicsTaken (rest : Bytes) (out topics : List Str) : Type 0 where
  sent : List (Bytes × ℕ)
  last : Option Bytes
  laid : rest ≡ topic_bytes sent ++ opt_bytes last
  text : topics ≡ out ++ map from_utf8_lossy (sent_topics sent last)
  short : All IsShort (sent_topics sent last)

none_left : (out topics : List Str) → some out ≡ some topics → TopicsTaken [] out topics
none_left out topics h = record {
  sent = [];
  last = none;
  laid = refl;
  text = let same : topics ≡ out = cc in rw append-nil same;
  short = tt;
}

one_left :
    (rest raw : Bytes) (out : List Str) (topic : Str) (topics : List Str)
    → topic ≡ from_utf8_lossy raw
    → IsShort raw
    → rest ≡ str_field raw ++ []
    → some (out ++ topic ∷ []) ≡ some topics
    → TopicsTaken rest out topics
one_left rest raw out topic topics text short split h = record {
  sent = [];
  last = some raw;
  laid = split ∙ append-nil (str_field raw);
  text = let same : topics ≡ out ++ topic ∷ [] = cc in rw (same, text) refl;
  short = (short, tt);
}

more_left :
    (rest raw : Bytes) (q : ℕ) (left : Bytes) (out : List Str) (topic : Str) (topics : List Str)
    → topic ≡ from_utf8_lossy raw
    → IsShort raw
    → rest ≡ str_field raw ++ (q ∷ left)
    → TopicsTaken left (out ++ topic ∷ []) topics
    → TopicsTaken rest out topics
more_left rest raw q left out topic topics text short split t = record {
  sent = (raw, q) ∷ t.sent;
  last = t.last;
  laid =
      split
      ∙ ap (λ l. str_field raw ++ (q ∷ l)) t.laid
      ∙ sym (append_assoc (str_field raw) (q ∷ topic_bytes t.sent) (opt_bytes t.last));
  text =
      t.text
      ∙ append_assoc out (topic ∷ []) (map from_utf8_lossy (sent_topics t.sent t.last))
      ∙ ap (λ s. out ++ s ∷ map from_utf8_lossy (sent_topics t.sent t.last)) text;
  short = (short, t.short);
}

topics_loop-taken :
    (fuel : ℕ) (body : Bytes) (off : ℕ) (rest : Bytes) (out topics : List Str)
    → Ahead body off rest
    → AreBytes rest
    → length rest ≤ fuel
    → topics_loop fuel body off out ≡ some topics
    → TopicsTaken rest out topics
unfolding topics_loop
topics_loop-taken zero body off [] out topics a b f h = none_left out topics h
topics_loop-taken zero body off (x ∷ xs) out topics a b f h = absurd (omega arith)
topics_loop-taken (suc fuel) body off [] out topics a b f h =
    none_left out topics
      (sym (topics_loop_end (suc fuel) body off out (omega (arith, length-Ahead a))) ∙ h)
topics_loop-taken (suc fuel) body off (x ∷ xs) out topics a b f h =
    let more : ltb off (length body) ≡ true = ground (arith, length-Ahead a) in
    elim (Option-cases (read_str body off)) [
      | inl e ↦ cc (rw (more, topics_loop, e) at h)
      | inr ((topic, off'), e) ↦
          let h1 = rw (more, topics_loop, e) at h in
          let (raw, text, r, short) = read_str-Reads (x ∷ xs) a b e in
          elim (Bytes-cases r.left) [
            | inl k ↦ one_left (x ∷ xs) raw out topic topics text short (rw k at r.split) (
                sym (
                  topics_loop_end fuel body (off' + 1) (out ++ topic ∷ [])
                    (omega (arith, length-Ahead r.ahead, ap length k)))
                ∙ h1)
            | inr (q, left, k) ↦
                let split : x ∷ xs ≡ str_field raw ++ (q ∷ left) = rw k at r.split in
                let ahead = Ahead-cons (rw k at r.ahead) in
                let bytes : AreBytes (q ∷ left) = rw k at r.bytes in
                let less : length left ≤ fuel =
                  omega (arith, ap length split, length-append (str_field raw) (q ∷ left)) in
                more_left (x ∷ xs) raw q left out topic topics text short split (
                  topics_loop-taken fuel body (off' + 1) left (out ++ topic ∷ []) topics ahead
                    bytes.1 less h1)
          ]
    ]

-- A SUBSCRIBE body as it was sent, and what is made of it.
pub record SubscribeTaken (body : Bytes) (s : Subscribe) : Type 0 where
  pub sent : List (Bytes × ℕ)
  pub last : Option Bytes
  pub laid : body ≡ id_bytes (some s.packet_id) ++ (topic_bytes sent ++ opt_bytes last)
  pub text : s.topics ≡ map from_utf8_lossy (sent_topics sent last)
  pub short : All IsShort (sent_topics sent last)
  pub id_fits : s.packet_id < 65536

pub decode_subscribe-taken :
    (body : Bytes) (pkt : Packet)
    → AreBytes body
    → decode_subscribe body ≡ some pkt
    → (s : Subscribe) × (pkt ≡ subscribe s) × SubscribeTaken body s
unfolding decode_subscribe
decode_subscribe-taken [] pkt b h = cc
decode_subscribe-taken (hi ∷ []) pkt b h = cc
decode_subscribe-taken (hi ∷ lo ∷ rest) pkt b h =
    let body = hi ∷ lo ∷ rest in
    elim (Option-cases (topics_loop (length body) body 2 [])) [
      | inl e ↦ cc (rw e at h)
      | inr (topics, e) ↦
          let h1 = rw e at h in
          let a : Ahead body 2 rest = Ahead-cons (Ahead-cons (Ahead-zero body)) in
          let t = topics_loop-taken (length body) body 2 rest [] topics a b.1.1 (omega arith) e in
          let (upper, lower, below) = halves hi lo b.0 b.1.0 in
          (
            record { packet_id = u16_of hi lo; topics = topics },
            cc,
            record {
              sent = t.sent;
              last = t.last;
              laid = rw (upper, lower) (ap (λ l. hi ∷ lo ∷ l) t.laid);
              text = t.text;
              short = t.short;
              id_fits = below;
            },
          )
    ]
