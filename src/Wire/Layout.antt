-- ===== src/Wire/Layout.antt =====
-- The packet bodies as MQTT 3.x lays them out: what a client writes, for the theorems on decoding.
use aquilo_offline.Base.{
  ℕ, ◌/◌, ◌%◌, ◌<◌, ◌≡◌, Option, some, none, List, [], ◌∷◌, ◌++◌, Bytes, Str, IsText, length,
  is_some, bit_and, ltb,
}
use aquilo_offline.Wire.Decode.{Connect, Publish, has}
use aquilo_offline.Wire.Encode.{str_field}

-- A text that fits the two length bytes.
pub record IsField (s : Str) : Type 0 where
  pub text : IsText s
  pub short : length s < 65536

-- The bytes of a PUBLISH body, as MQTT lays them out: topic, packet id for a QoS above 0, payload.
abbrev pub id_bytes : Option ℕ → Bytes
id_bytes none = []
id_bytes (some n) = (n / 256 % 256) ∷ (n % 256) ∷ []

abbrev pub publish_body : Publish → Bytes
publish_body p = str_field p.topic ++ (id_bytes p.packet_id ++ p.payload)

pub record IsPublish (flags : ℕ) (p : Publish) : Type 0 where
  pub topic : IsField p.topic
  pub qos : bit_and (flags / 2) 0x03 ≡ p.qos
  pub retain : has flags 0x01 ≡ p.retain
  pub with_id : ltb 0 p.qos ≡ is_some p.packet_id
  pub id_fits : (n : ℕ) → p.packet_id ≡ some n → n < 65536

abbrev pub opt_bytes : Option Str → Bytes
opt_bytes none = []
opt_bytes (some s) = str_field s

abbrev pub will_bytes : Option (Bytes × Bytes) → Bytes
will_bytes none = []
will_bytes (some (topic, message)) = str_field topic ++ str_field message

-- What a CONNECT holds beside the identity that is recovered.
pub record ConnectHeader : Type 0 where
  pub protocol : Bytes
  pub level : ℕ
  pub flags : ℕ
  pub keep_hi : ℕ
  pub keep_lo : ℕ
  pub will : Option (Bytes × Bytes)

abbrev pub connect_tail : ConnectHeader → Connect → Bytes
connect_tail k c = will_bytes k.will ++ (opt_bytes c.username ++ opt_bytes c.password)

abbrev pub connect_body : ConnectHeader → Connect → Bytes
connect_body k c =
    str_field k.protocol
    ++ (k.level ∷ k.flags ∷ k.keep_hi ∷ k.keep_lo ∷ (str_field c.client_id ++ connect_tail k c))

-- A byte string that fits the two length bytes, where it is there.
abbrev pub FitsField : Option Bytes → Type 0
FitsField none = Unit
FitsField (some s) = length s < 65536

abbrev pub FitsWill : Option (Bytes × Bytes) → Type 0
FitsWill none = Unit
FitsWill (some (topic, message)) = (length topic < 65536) × (length message < 65536)

-- The flags announce exactly the fields that are there, and each fits its length bytes.
pub record IsConnect (k : ConnectHeader) (c : Connect) : Type 0 where
  pub protocol : length k.protocol < 65536
  pub client_id : length c.client_id < 65536
  pub will : has k.flags 0x04 ≡ is_some k.will
  pub will_fits : FitsWill k.will
  pub username : has k.flags 0x80 ≡ is_some c.username
  pub username_fits : FitsField c.username
  pub password : has k.flags 0x40 ≡ is_some c.password
  pub password_fits : FitsField c.password

-- A SUBSCRIBE body: the packet id, then each topic and its requested QoS.
abbrev pub topic_bytes : List (Str × ℕ) → Bytes
topic_bytes [] = []
topic_bytes ((s, q) ∷ ts) = str_field s ++ (q ∷ topic_bytes ts)

abbrev pub topic_names : List (Str × ℕ) → List Str
topic_names [] = []
topic_names ((s, q) ∷ ts) = s ∷ topic_names ts

abbrev pub AreTopics : List (Str × ℕ) → Type 0
AreTopics [] = Unit
AreTopics ((s, q) ∷ ts) = IsField s × AreTopics ts
