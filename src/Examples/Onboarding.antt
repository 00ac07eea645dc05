-- ===== src/Examples/Onboarding.antt =====
-- Runs of onboarding with the stand-ins of Toy: a device served and a proxied exchange.
use aquilo_offline.Base.{ℤ, ◌≡◌, refl, false, some, none, List, [], ◌∷◌, codes, Bytes, Str}
use aquilo_offline.Examples.Toy.{hundredths, observe_env}
use aquilo_offline.Onboard.Facts.{Facts}
use aquilo_offline.Onboard.Handshake.{IsOrderly}
use aquilo_offline.Onboard.Learn.{Proxy, Chunk, from_device, from_cloud, proxy}
use aquilo_offline.Onboard.Observe.{connected, observe}
use aquilo_offline.Onboard.Seeding.{observe-IsOrderly}
use aquilo_offline.Onboard.Replies.{on_packets-owed}
use aquilo_offline.Onboard.Observe.{on_packets, closed}
use aquilo_offline.Wire.Decode.{Packet, publish, ping_req, disconnect}
use aquilo_offline.Onboard.Sessions.{Progress, proxy_transparent}

abbrev now : Str
now = codes "T"

-- A SUBSCRIBE and a ping in two chunks.
abbrev device_chunks : List (Bytes × Str)
device_chunks = ((0x82 ∷ 6 ∷ 0 ∷ 1 ∷ []), now) ∷ ((0 ∷ 1 ∷ b'a' ∷ 0 ∷ 0xc0 ∷ 0 ∷ []), now) ∷ []

observe-IsOrderly_example :
    Progress
      (connected observe_env false []).session
      (observe observe_env device_chunks (connected observe_env false [])).0.session
    × IsOrderly (observe observe_env device_chunks (connected observe_env false [])).0
observe-IsOrderly_example =
    observe-IsOrderly observe_env device_chunks (connected observe_env false [])
      (record { order = unfold connected in refl })

abbrev known_firmware : Facts ℤ
known_firmware = record {
  receiver_id = some (codes "r1");
  client_id = none;
  mqtt_user = none;
  mqtt_pass = none;
  firmware = some (codes "1.2");
  sensor_id = none;
  sensor_name = none;
  radar_skip = none;
  radar_repeat = none;
  seed = none;
}

abbrev start : Proxy (List Bytes) ℤ
start = record {
  session = record { facts = known_firmware; written = false; disk = [] };
  device_buf = [];
  cloud_buf = [];
  to_cloud = [];
  to_device = [];
}

-- A ping and its answer, with a byte that is the start of nothing yet.
abbrev exchange : List (Chunk × Str)
exchange =
    (from_device (0xc0 ∷ []), now)
    ∷ (from_device (0 ∷ []), now)
    ∷ (from_cloud (0xd0 ∷ 0 ∷ 0x30 ∷ []), now)
    ∷ []

proxy_transparent_example :
    ((proxy observe_env exchange start).to_cloud ≡ 0xc0 ∷ 0 ∷ [])
    × ((proxy observe_env exchange start).to_device ≡ 0xd0 ∷ 0 ∷ 0x30 ∷ [])
    × Progress start.session (proxy observe_env exchange start).session
proxy_transparent_example = proxy_transparent observe_env exchange start

-- A ping, a PUBLISH with a packet id, and a DISCONNECT with a ping behind it.
abbrev device_packets : List Packet
device_packets =
    ping_req
    ∷ publish
        (record { topic = codes "x"; payload = []; qos = 1; retain = false; packet_id = some 7 })
    ∷ disconnect
    ∷ ping_req
    ∷ []

on_packets-owed_example :
    ((on_packets observe_env now device_packets (connected observe_env false [])).0.sent
      ≡ (0xd0 ∷ 0 ∷ []) ∷ (0x40 ∷ 2 ∷ 0 ∷ 7 ∷ []) ∷ [])
    × ((on_packets observe_env now device_packets (connected observe_env false [])).1 ≡ closed)
unfolding connected
on_packets-owed_example =
    on_packets-owed observe_env now device_packets (connected observe_env false []) (λ bytes. refl)
