-- ===== src/Server/Broker.antt =====
-- The two ways `run` of server.rs gets its broker connection, and the embedded broker's settings of
-- broker.rs. The fields that the code sets to `None` are left out. `parse` is the standard library's
-- parser of socket addresses, and `spawns` says whether the broker's thread starts.
pub mod Access
use aquilo_offline.Base.{
  ℕ, Bool, true, Option, none, some, List, [], ◌∷◌, ◌++◌, Str, codes, bytes_eq, if◌then◌else◌,
  ◌>>=◌,
}
use aquilo_offline.Base.Decimal.{show_ℕ}
use aquilo_offline.Server.Config.{BrokerSettings, Config}

-- A `HashMap` of texts: its entries, each key once. `insert` replaces the value of a key that is there.
abbrev pub Auth : Type 0
Auth = List (Str × Str)

unfoldable pub insert : Str → Str → Auth → Auth
insert user pass [] = (user, pass) ∷ []
insert user pass ((u, p) ∷ auth) =
    if bytes_eq u user then (u, pass) ∷ auth else (u, p) ∷ insert user pass auth

unfoldable pub get : Str → Auth → Option Str
get user [] = none
get user ((u, p) ∷ auth) = if bytes_eq u user then some p else get user auth

unfoldable pub internal_user : Str
internal_user = codes "aquilo-server"

unfoldable pub internal_pass : Str
internal_pass = codes "aquilo-internal"

pub record ConnectionSettings : Type 0 where
  pub connection_timeout_ms : ℕ
  pub max_payload_size : ℕ
  pub max_inflight_count : ℕ
  pub auth : Option Auth
  pub dynamic_filters : Bool

pub record ServerSettings (A : Type 0) : Type 0 where
  pub name : Str
  pub listen : A
  pub next_connection_delay_ms : ℕ
  pub connections : ConnectionSettings

pub record RouterConfig : Type 0 where
  pub max_connections : ℕ
  pub max_outgoing_packet_count : ℕ
  pub max_segment_size : ℕ
  pub max_segment_count : ℕ

-- `v4` is a map too, with the one entry that the code makes.
pub record BrokerConfig (A : Type 0) : Type 0 where
  pub id : ℕ
  pub router : RouterConfig
  pub v4 : List (Str × ServerSettings A)

unfoldable pub router : RouterConfig
router = record {
  max_connections = 10010;
  max_outgoing_packet_count = 200;
  max_segment_size = 104857600;
  max_segment_count = 10;
}

-- What `run` connects to.
pub record BrokerConn : Type 0 where
  pub host : Str
  pub port : ℕ
  pub user : Str
  pub pass : Str

-- `MqttOptions` as `run` sets them.
pub record MqttOptions : Type 0 where
  pub client_id : Str
  pub conn : BrokerConn
  pub keep_alive_secs : ℕ

module _ {R : Type 0} where
  unfoldable pub auth_of : Config R → Auth
  unfolding insert internal_user internal_pass
  auth_of cfg = insert internal_user internal_pass (insert cfg.mqtt_user cfg.mqtt_pass [])

  abbrev pub listen_text : Config R → Str
  listen_text cfg = cfg.bind_addr ++ (b':' ∷ show_ℕ cfg.listen_port)

  unfoldable pub mqtt_options : Config R → BrokerConn → MqttOptions
  mqtt_options cfg conn = record {
    client_id = codes "aquilo-server-" ++ cfg.receiver_id;
    conn = conn;
    keep_alive_secs = 30;
  }

  unfoldable pub settings : {A : Type 0} → Config R → A → BrokerConfig A
  unfolding auth_of router
  settings cfg listen = record {
    id = 0;
    router = router;
    v4 =
        (
          codes "v4-1",
          record {
            name = codes "v4-1";
            listen = listen;
            next_connection_delay_ms = 1;
            connections = record {
              connection_timeout_ms = 60000;
              max_payload_size = 20480;
              max_inflight_count = 100;
              auth = some (auth_of cfg);
              dynamic_filters = true;
            };
          },
        )
        ∷ [];
  }

  -- The own client's connection to the embedded broker.
  unfoldable pub internal_conn : Config R → BrokerConn
  unfolding internal_user internal_pass
  internal_conn cfg = record {
    host = codes "127.0.0.1";
    port = cfg.listen_port;
    user = internal_user;
    pass = internal_pass;
  }

module _ {A R : Type 0} (parse : Str → Option A) where
  -- `none` is the error of an address that does not parse.
  unfoldable pub broker_config : Config R → Option (BrokerConfig A)
  unfolding settings show_ℕ
  broker_config cfg = do listen ← parse (listen_text cfg); some (settings cfg listen)

  -- `broker::spawn`: the settings that the thread runs the broker with.
  unfoldable pub spawn : Bool → Config R → Option (BrokerConfig A)
  unfolding broker_config
  spawn spawns cfg = do config ← broker_config cfg; if spawns then some config else none

  -- The connection, with the embedded broker if there is one.
  abbrev pub connect_to :
      Bool → Config R → Option BrokerSettings → Option (Option (BrokerConfig A) × BrokerConn)
  connect_to spawns cfg (some b) =
      some (none, record { host = b.host; port = b.port; user = b.username; pass = b.password })
  connect_to spawns cfg none = do config ← spawn spawns cfg; some (some config, internal_conn cfg)

  unfoldable pub open_conn : Bool → Config R → Option (Option (BrokerConfig A) × BrokerConn)
  unfolding spawn internal_conn
  open_conn spawns cfg = connect_to spawns cfg cfg.broker
