-- ===== src/Tests/Wire.antt =====
-- The unit tests of mqtt_wire.rs.
use aquilo_offline.Base.{
  ◌≡◌, refl, true, false, some, none, List, [], ◌∷◌, ◌++◌, Bytes, Str, codes, length, take, drop,
  get_elem?, from_utf8_lossy, scan, scan_byte,
}
use aquilo_offline.Wire.Decode.{
  Connect, Publish, connect, publish, subscribe, ping_req, disconnect, decode_body, decode_connect,
  decode_publish, decode_subscribe, topics_loop, read_str, read_bytes, u16_of, optional_id,
  rest_from, skip_will, optional_str,
}
use aquilo_offline.Wire.Encode
use aquilo_offline.Wire.Encode.{frame, encode_len, str_field, suback, pingresp}
use aquilo_offline.Wire.Stream.{push, drain_loop, next_frame, finish_frame, varint_loop}

-- The bytes of a CONNECT with a user name and a password, as an MQTT 3.1.1 client writes it.
abbrev connect_bytes : Str → Str → Str → Bytes
connect_bytes client_id user pass = frame 0x10 (
    str_field (codes "MQTT")
    ++ (0x04 ∷ 0xc2 ∷ 0x00 ∷ 0x3c ∷ [])
    ++ str_field client_id
    ++ str_field user
    ++ str_field pass)

abbrev DecodesAConnectWithCredentials : Type 0
DecodesAConnectWithCredentials =
    (push [] (connect_bytes (codes "CieczSensorae83fc") (codes "ae83fc") (codes "48007129"))).out
    ≡ connect (record {
      client_id = codes "CieczSensorae83fc";
      username = some (codes "ae83fc");
      password = some (codes "48007129");
    })
      ∷ []

decodes_a_connect_with_credentials : DecodesAConnectWithCredentials
unfolding push drain_loop next_frame finish_frame varint_loop frame str_field encode_len pingresp
    Encode.publish decode_body decode_connect decode_publish decode_subscribe topics_loop read_str
    read_bytes u16_of skip_will optional_str optional_id rest_from from_utf8_lossy scan scan_byte
decodes_a_connect_with_credentials = refl

abbrev DecodesARetainedPublish : Type 0
DecodesARetainedPublish =
    (push [] (Encode.publish (codes "/users/ae83fc/state") (codes "{\"sensors\":[]}") true)).out
    ≡ publish (record {
      topic = codes "/users/ae83fc/state";
      payload = codes "{\"sensors\":[]}";
      qos = 0;
      retain = true;
      packet_id = none;
    })
      ∷ []

decodes_a_retained_publish : DecodesARetainedPublish
unfolding push drain_loop next_frame finish_frame varint_loop frame str_field encode_len pingresp
    Encode.publish decode_body decode_connect decode_publish decode_subscribe topics_loop read_str
    read_bytes u16_of skip_will optional_str optional_id rest_from from_utf8_lossy scan scan_byte
decodes_a_retained_publish = refl

-- The body of a SUBSCRIBE: the packet id 1, then each topic and a QoS byte.
abbrev topics_of : List Str → Bytes
topics_of [] = []
topics_of (t ∷ ts) = str_field t ++ 0x00 ∷ topics_of ts

abbrev DecodesASubscribeWithSeveralTopics : Type 0
DecodesASubscribeWithSeveralTopics =
    (push []
      (frame 0x82 (0x00 ∷ 0x01 ∷ topics_of (codes "/ping" ∷ codes "/users/ae83fc/state" ∷ [])))).out
    ≡ subscribe
        (record { packet_id = 1; topics = codes "/ping" ∷ codes "/users/ae83fc/state" ∷ [] })
      ∷ []

decodes_a_subscribe_with_several_topics : DecodesASubscribeWithSeveralTopics
unfolding push drain_loop next_frame finish_frame varint_loop frame str_field encode_len pingresp
    Encode.publish decode_body decode_connect decode_publish decode_subscribe topics_loop read_str
    read_bytes u16_of skip_will optional_str optional_id rest_from from_utf8_lossy scan scan_byte
decodes_a_subscribe_with_several_topics = refl

abbrev ReassemblesPacketsSplitAcrossChunks : Type 0
ReassemblesPacketsSplitAcrossChunks =
    let bytes = connect_bytes (codes "CieczSensorae83fc") (codes "ae83fc") (codes "48007129") in
    let dec = push [] (take 5 bytes) in
    let packets = (push dec.buf (drop 5 bytes)).out in
    (dec.out ≡ []) × (length packets ≡ 1) × (c : Connect) × (get_elem? packets 0 ≡ some (connect c))

reassembles_packets_split_across_chunks : ReassemblesPacketsSplitAcrossChunks
unfolding push drain_loop next_frame finish_frame varint_loop frame str_field encode_len pingresp
    Encode.publish decode_body decode_connect decode_publish decode_subscribe topics_loop read_str
    read_bytes u16_of skip_will optional_str optional_id rest_from from_utf8_lossy scan scan_byte
reassembles_packets_split_across_chunks = (refl, refl, _, refl)

abbrev SplitsMultiplePacketsInOneChunk : Type 0
SplitsMultiplePacketsInOneChunk =
    let bytes =
      Encode.publish (codes "/a") (codes "1") false
      ++ pingresp
      ++ Encode.publish (codes "/b") (codes "2") false in
    let packets = (push [] bytes).out in
    (length packets ≡ 3)
    × ((p : Publish) × (get_elem? packets 0 ≡ some (publish p)) × (p.topic ≡ codes "/a"))
    × ((p : Publish) × (get_elem? packets 2 ≡ some (publish p)) × (p.topic ≡ codes "/b"))

splits_multiple_packets_in_one_chunk : SplitsMultiplePacketsInOneChunk
unfolding push drain_loop next_frame finish_frame varint_loop frame str_field encode_len pingresp
    Encode.publish decode_body decode_connect decode_publish decode_subscribe topics_loop read_str
    read_bytes u16_of skip_will optional_str optional_id rest_from from_utf8_lossy scan scan_byte
splits_multiple_packets_in_one_chunk = (refl, (_, refl, refl), (_, refl, refl))

abbrev PingAndDisconnectDecodeToTheirVariants : Type 0
PingAndDisconnectDecodeToTheirVariants =
    let dec = push [] (0xc0 ∷ 0x00 ∷ []) in
    (dec.out ≡ ping_req ∷ []) × ((push dec.buf (0xe0 ∷ 0x00 ∷ [])).out ≡ disconnect ∷ [])

ping_and_disconnect_decode_to_their_variants : PingAndDisconnectDecodeToTheirVariants
unfolding push drain_loop next_frame finish_frame varint_loop frame str_field encode_len pingresp
    Encode.publish decode_body decode_connect decode_publish decode_subscribe topics_loop read_str
    read_bytes u16_of skip_will optional_str optional_id rest_from from_utf8_lossy scan scan_byte
ping_and_disconnect_decode_to_their_variants = (refl, refl)

abbrev SubackGrantsOneCodePerTopic : Type 0
SubackGrantsOneCodePerTopic = suback 7 3 ≡ 0x90 ∷ 0x05 ∷ 0x00 ∷ 0x07 ∷ 0x00 ∷ 0x00 ∷ 0x00 ∷ []

suback_grants_one_code_per_topic : SubackGrantsOneCodePerTopic
unfolding suback frame encode_len
suback_grants_one_code_per_topic = refl
