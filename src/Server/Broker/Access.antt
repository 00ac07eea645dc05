-- ===== src/Server/Broker/Access.antt =====
-- Who may connect to the embedded broker of broker.rs.
use mathlib.Core.Option
use aquilo_offline.Base.{
  ◌≡◌, refl, Bool, true, Option, none, some, List, [], ◌∷◌, Str, bytes_eq, bytes_eq_iff,
  bytes_eq_refl, if◌then◌else◌, Bool-cases, inl, inr, ◌>>=◌, ◌&&◌, ◌||◌, ◌∙◌, arith, is_some,
  get_elem?,
}
use aquilo_offline.Server.Broker.{
  settings, internal_conn, Auth, insert, get, internal_user, internal_pass, ServerSettings,
  BrokerConfig, BrokerConn, auth_of, broker_config, listen_text, spawn, open_conn,
}
use aquilo_offline.Server.Config.{Config}

-- Looking up behind an `insert`, at the same key and at others.
get-insert :
    (u user pass : Str) (auth : Auth)
    → get u (insert user pass auth) ≡ (if bytes_eq user u then some pass else get u auth)
unfolding get insert
get-insert u user pass [] = refl
get-insert u user pass ((v, p) ∷ auth) = elim (Bool-cases (bytes_eq v user)) [
  | inl e ↦ let same = (bytes_eq_iff v user).0 e in rw (e, same) (ground arith)
  | inr e ↦ rw e (
      ground (
        arith,
        get-insert u user pass auth,
        bytes_eq_iff v u,
        bytes_eq_iff user u,
        bytes_eq_iff v user,
        e,
      ))
]

-- The password that the embedded broker expects of a user, none for one that it does not know.
abbrev expected_of : {A : Type 0} → Str → List (Str × ServerSettings A) → Option Str
expected_of u [] = none
expected_of u ((name, server) ∷ servers) = server.connections.auth >>= get u

abbrev pub expected : {A : Type 0} → Str → BrokerConfig A → Option Str
expected u b = expected_of u b.v4

pub get-auth_of :
    {R : Type 0} (cfg : Config R) (u : Str)
    → get u (auth_of cfg) ≡ (
        if bytes_eq internal_user u
        then some internal_pass
        else if bytes_eq cfg.mqtt_user u
        then some cfg.mqtt_pass
        else none)
unfolding auth_of get
get-auth_of cfg u =
    get-insert u internal_user internal_pass (insert cfg.mqtt_user cfg.mqtt_pass [])
    ∙ rw (get-insert u cfg.mqtt_user cfg.mqtt_pass []) refl

module _ {A R : Type 0} (parse : Str → Option A) where
  -- The connection is opened exactly with an external broker, or with an address that parses and a
  -- thread that starts.
  pub open_conn_iff :
      (spawns : Bool) (cfg : Config R)
      → is_some (open_conn parse spawns cfg)
        ≡ (is_some cfg.broker || (spawns && is_some (parse (listen_text cfg))))
  unfolding open_conn spawn broker_config
  open_conn_iff spawns cfg = ground arith

  -- Without an external broker, with an address that parses and a thread that starts: the embedded
  -- broker listens there, on the port that the own client connects to; it expects of the client's user
  -- just the password that the client has. Of the device's user it expects the device's password,
  -- unless the device's user is the client's, and it knows no other user.
  pub open_conn-embedded :
      (cfg : Config R) (listen : A) (u : Str)
      → cfg.broker ≡ none
      → parse (listen_text cfg) ≡ some listen
      → (b : BrokerConfig A) × (c : BrokerConn) × (open_conn parse true cfg ≡ some (some b, c))
        × (c.port ≡ cfg.listen_port)
        × (Option.map (λ s. s.1.listen) (get_elem? b.v4 0) ≡ some listen)
        × (expected c.user b ≡ some c.pass)
        × (expected u b ≡ (
            if bytes_eq internal_user u
            then some internal_pass
            else if bytes_eq cfg.mqtt_user u
            then some cfg.mqtt_pass
            else none))
  unfolding open_conn spawn broker_config settings internal_conn
  open_conn-embedded cfg listen u e p = (
    settings cfg listen,
    internal_conn cfg,
    rw (e, p) refl,
    refl,
    refl,
    get-auth_of cfg internal_user ∙ rw (bytes_eq_refl internal_user) refl,
    get-auth_of cfg u,
  )
