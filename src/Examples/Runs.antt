-- ===== src/Examples/Runs.antt =====
-- Whole runs with the stand-ins of Toy: the server with its embedded broker and its pings, and
-- onboarding over several connections.
use aquilo_offline.Base.{
  ◌≡◌, ◌≢◌, refl, true, false, some, none, List, [], ◌∷◌, ◌++◌, length, drop, codes, bytes_eq,
  Bytes, Str, Option, ℤ, get_elem?, if◌then◌else◌,
}
use mathlib.Core.Option
use aquilo_offline.Core.State.{to_json}
use aquilo_offline.Examples.Toy.{config, server_env, texts, observe_env}
use aquilo_offline.Onboard.Learn.{from_device, from_cloud}
use aquilo_offline.Onboard.Output.{Session}
use aquilo_offline.Onboard.Reconnects.{run_learn-Progress, run_observe-Frozen}
use aquilo_offline.Onboard.Runs.{Proxied, unreachable, connection, run_learn, run_observe}
use aquilo_offline.Onboard.Sessions.{Frozen, Progress}
use aquilo_offline.Server.Broker.{
  internal_user, internal_pass, BrokerConfig, BrokerConn, listen_text, settings, internal_conn,
  mqtt_options, open_conn,
}
use aquilo_offline.Server.Broker.Access.{expected, open_conn-embedded}
use aquilo_offline.Server.Handler.{
  Request, retained, subscribe, at_most_once, at_least_once, Event, conn_ack, poll_error, start,
  serve, topics,
}
use aquilo_offline.Server.Keeps.{IsMade}
use aquilo_offline.Server.Pings.{run-connected}
use aquilo_offline.Server.Requests.{serve-requests}
use aquilo_offline.Server.Retained.{retained_from}
use aquilo_offline.Server.Run.{Running, ping, WithPings, quiet, own, pinged, run}
use aquilo_offline.Server.Runtime.{Loaded, absent}

abbrev now : Str
now = codes "T"

-- Addresses as their own text.
abbrev address : Str → Option Str
address s = some s

open_conn-embedded_example :
    (b : BrokerConfig Str) × (c : BrokerConn) × (open_conn address true config ≡ some (some b, c))
    × (c.port ≡ config.listen_port)
    × (Option.map (λ s. s.1.listen) (get_elem? b.v4 0) ≡ some (listen_text config))
    × (expected c.user b ≡ some c.pass)
    × (expected (codes "u") b ≡ (
        if bytes_eq internal_user (codes "u")
        then some internal_pass
        else if bytes_eq config.mqtt_user (codes "u")
        then some config.mqtt_pass
        else none))
open_conn-embedded_example =
    open_conn-embedded address config (listen_text config) (codes "u") refl refl

-- The run of a server whose broker answers twice, and restarts in between.
abbrev connected_once : List (Event × Str)
connected_once = (conn_ack, now) ∷ (poll_error, now) ∷ []

abbrev ended : Running Str (Loaded ℤ) ℤ
ended = record {
  broker = some (settings config (listen_text config));
  options = mqtt_options config (internal_conn config);
  world =
      (serve server_env (connected_once ++ (conn_ack, now) ∷ []) (start server_env absent now)).0;
  ending =
      (serve server_env (connected_once ++ (conn_ack, now) ∷ []) (start server_env absent now)).1;
}

all_own : (tick : Request) (rs : List Request) → WithPings tick rs rs
all_own tick [] = quiet
all_own tick (r ∷ rs) = own r (all_own tick rs)

-- The requests since the second CONNACK.
abbrev since : List Request
since =
    drop (length (serve server_env connected_once (start server_env absent now)).0.sent)
      ended.world.sent

run-connected_example :
    retained_from (topics server_env).state none (ping config ∷ since)
    ≡ texts.to_vec (to_json texts ended.world.rt.current)
run-connected_example =
    run-connected address server_env true absent now now connected_once [] ended none
      (unfold run open_conn in refl) (unfold serve start in refl)
      (pinged (all_own (ping config) since))

-- The first request is the firmware, the fourth one a subscription.
serve-requests_example :
    IsMade (topics server_env) (retained (topics server_env).version (codes "1.2"))
    × IsMade (topics server_env) (subscribe (topics server_env).read at_most_once)
    × ((topics server_env).version ≢ (topics server_env).read)
serve-requests_example =
    serve-requests server_env ((conn_ack, now) ∷ []) absent now 0 3
      (record {
        topic = (topics server_env).version;
        qos = at_least_once;
        retain = true;
        payload = codes "1.2";
      })
      (topics server_env).read at_most_once (unfold serve start in refl)
      (unfold serve start in refl)

-- The cloud is not reached, then a ping is passed on in two pieces.
abbrev connections : List Proxied
connections =
    unreachable
    ∷ connection ((from_device (0xc0 ∷ []), now) ∷ (from_device (0 ∷ []), now) ∷ [])
    ∷ connection ((from_cloud (0xd0 ∷ 0 ∷ []), now) ∷ [])
    ∷ []

abbrev fresh : Session (List Bytes) ℤ
fresh = record {
  facts = record {
    receiver_id = some (codes "r1");
    client_id = none;
    mqtt_user = none;
    mqtt_pass = none;
    firmware = some (codes "1.2");
    sensor_id = none;
    sensor_name = none;
    radar_skip = none;
    radar_repeat = none;
    seed = none;
  };
  written = false;
  disk = [];
}

run_learn-Progress_example : Progress fresh (run_learn observe_env connections fresh)
run_learn-Progress_example = run_learn-Progress observe_env connections fresh

run_observe-Frozen_example :
    Frozen true
      ((1 ∷ []) ∷ [])
      (run_observe observe_env
        (((0xc0 ∷ 0 ∷ [], now) ∷ []) ∷ [] ∷ [])
        (record { facts = fresh.facts; written = true; disk = (1 ∷ []) ∷ [] })).written
      (run_observe observe_env
        (((0xc0 ∷ 0 ∷ [], now) ∷ []) ∷ [] ∷ [])
        (record { facts = fresh.facts; written = true; disk = (1 ∷ []) ∷ [] })).disk
run_observe-Frozen_example =
    run_observe-Frozen observe_env (((0xc0 ∷ 0 ∷ [], now) ∷ []) ∷ [] ∷ [])
      (record { facts = fresh.facts; written = true; disk = (1 ∷ []) ∷ [] })
