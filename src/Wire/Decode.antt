-- ===== src/Wire/Decode.antt =====
-- The packets of mqtt_wire.rs and their decoding. A `u16` or `usize` stays far below its bound
-- here: lengths are at most 65535 and offsets at most the length of the body.
use aquilo_offline.Base.{
  ℕ, zero, suc, ◌+◌, ◌-◌, ◌*◌, ◌/◌, bit_and, bit_or, Bool, true, false, not, Option, none, some,
  List, [], ◌∷◌, ◌++◌, Bytes, Str, ltb, leb, ◌==◌, if◌then◌else◌, ◌>>=◌, length, get_elem?, take,
  drop, from_utf8_lossy,
}

pub record Connect : Type 0 where
  pub client_id : Str
  pub username : Option Str
  pub password : Option Str

pub record Publish : Type 0 where
  pub topic : Str
  pub payload : Bytes
  pub qos : ℕ
  pub retain : Bool
  pub packet_id : Option ℕ

pub record Subscribe : Type 0 where
  pub packet_id : ℕ
  pub topics : List Str

pub data Packet : Type 0 where
  connect : Connect → Packet
  publish : Publish → Packet
  subscribe : Subscribe → Packet
  ping_req : Packet
  disconnect : Packet
  other : ℕ → Packet

-- `(hi << 8) | lo`
unfoldable pub u16_of : ℕ → ℕ → ℕ
u16_of hi lo = bit_or (hi * 256) lo

-- `&b[start..end]` for `start ≤ end ≤ b.len()`
abbrev pub slice : Bytes → ℕ → ℕ → Bytes
slice b start end = take (end - start) (drop start b)

-- The bytes read, and the offset past them. The offset is left as it was on a failure, and every
-- caller gives up then.
unfoldable pub read_bytes : Bytes → ℕ → Option (Bytes × ℕ)
read_bytes b off = do
  hi ← get_elem? b off
  lo ← get_elem? b (off + 1)
  let len = u16_of hi lo
  let start = off + 2
  let end = start + len
  if ltb (length b) end then none else some (slice b start end, end)

unfoldable pub read_str : Bytes → ℕ → Option (Str × ℕ)
read_str b off = do (s, off') ← read_bytes b off; some (from_utf8_lossy s, off')

-- `flags & bit != 0`
abbrev pub has : ℕ → ℕ → Bool
has flags bit = not (bit_and flags bit == 0)

-- The will topic and message, skipped when the flag says that they are there.
unfoldable pub skip_will : Bytes → ℕ → ℕ → Option ℕ
skip_will body flags off =
    if has flags 0x04
    then (do (t, off1) ← read_bytes body off; (m, off2) ← read_bytes body off1; some off2)
    else some off

-- The user name, and the password, each read when its flag is set.
unfoldable pub optional_str : Bytes → ℕ → ℕ → ℕ → Option (Option Str × ℕ)
optional_str body flags bit off =
    if has flags bit
    then (do (s, off') ← read_str body off; some (some s, off'))
    else some (none, off)

unfoldable pub decode_connect : Bytes → Option Packet
decode_connect body = do
  (name, off1) ← read_bytes body 0
  level ← get_elem? body off1
  flags ← get_elem? body (off1 + 1)
  let off2 = off1 + 1 + 1 + 2
  if ltb (length body) off2 then none else do
    (client_id, off3) ← read_str body off2
    off4 ← skip_will body flags off3
    (username, off5) ← optional_str body flags 0x80 off4
    (password, off6) ← optional_str body flags 0x40 off5
    some (connect (record { client_id = client_id; username = username; password = password }))

-- The packet id, read for a QoS above 0.
unfoldable pub optional_id : Bytes → ℕ → ℕ → Option (Option ℕ × ℕ)
optional_id body qos off =
    if ltb 0 qos
    then (do
      hi ← get_elem? body off
      lo ← get_elem? body (off + 1)
      some (some (u16_of hi lo), off + 2))
    else some (none, off)

-- `body.get(off..)`
unfoldable pub rest_from : Bytes → ℕ → Option Bytes
rest_from body off = if leb off (length body) then some (drop off body) else none

unfoldable pub decode_publish : ℕ → Bytes → Option Packet
decode_publish flags body = do
  let qos = bit_and (flags / 2) 0x03
  let retain = has flags 0x01
  (topic, off1) ← read_str body 0
  (packet_id, off2) ← optional_id body qos off1
  payload ← rest_from body off2
  some (
      publish (record {
        topic = topic;
        payload = payload;
        qos = qos;
        retain = retain;
        packet_id = packet_id;
      }))

-- `while off < body.len()`, on fuel: each round moves `off` on by 3 at least, so the length of the
-- body is enough.
unfoldable pub topics_loop : ℕ → Bytes → ℕ → List Str → Option (List Str)
topics_loop zero body off topics = some topics
topics_loop (suc fuel) body off topics = elim (ltb off (length body)) [
  | true ↦ (do
    (topic, off') ← read_str body off
    topics_loop fuel body (off' + 1) (topics ++ topic ∷ []))
  | false ↦ some topics
]

unfoldable pub decode_subscribe : Bytes → Option Packet
decode_subscribe body = do
  hi ← get_elem? body 0
  lo ← get_elem? body (0 + 1)
  let packet_id = u16_of hi lo
  topics ← topics_loop (length body) body (0 + 2) []
  some (subscribe (record { packet_id = packet_id; topics = topics }))

unfoldable pub decode_body : ℕ → ℕ → Bytes → Option Packet
decode_body kind flags body =
    if kind == 1
    then decode_connect body
    else if kind == 3
    then decode_publish flags body
    else if kind == 8
    then decode_subscribe body
    else if kind == 12
    then some ping_req
    else if kind == 14
    then some disconnect
    else some (other kind)
