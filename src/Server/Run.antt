-- ===== src/Server/Run.antt =====
-- `run` of aquilo-server/src/server.rs as a whole: the broker connection, the start from the store and
-- the loop, and the ping task beside them, whose messages come between the loop's own.
use aquilo_offline.Base.{Bool, false, Option, some, List, [], ◌∷◌, Str, codes, ◌>>=◌}
use aquilo_offline.Server.Broker.{BrokerConfig, MqttOptions, mqtt_options, open_conn}
use aquilo_offline.Server.Config.{Config}
use aquilo_offline.Server.Handler.{
  Request, publish, at_most_once, Event, Ending, World, Env, start, serve,
}
use aquilo_offline.Server.Topics.{new_topics}

-- What a started server has: the embedded broker if there is one, the client's options, and the world
-- that the loop ends in.
pub record Running (A S R : Type 0) : Type 0 where
  pub broker : Option (BrokerConfig A)
  pub options : MqttOptions
  pub world : World S R
  pub ending : Ending

-- The message of `spawn_ping`. A refused one is only logged.
unfoldable pub ping : {R : Type 0} → Config R → Request
ping cfg = publish (record {
  topic = (new_topics cfg.receiver_id).ping;
  qos = at_most_once;
  retain = false;
  payload = codes "ping";
})

-- The requests of the loop in their order, with pings of the other task anywhere between them.
pub data WithPings (tick : Request) : List Request → List Request → Type 0 where
  quiet : WithPings tick [] []
  own :
      (r : Request) {rs ss : List Request} → WithPings tick rs ss → WithPings tick (r ∷ rs) (r ∷ ss)
  pinged : {rs ss : List Request} → WithPings tick rs ss → WithPings tick rs (tick ∷ ss)

-- `none` is the error of a broker that cannot be started, before the store is touched.
unfoldable pub run :
    {A S V R : Type 0}
    → (Str → Option A)
    → Bool
    → Env S V R
    → S
    → Str
    → List (Event × Str)
    → Option (Running A S R)
unfolding open_conn mqtt_options start serve
run parse spawns e store now events = do
  (broker, conn) ← open_conn parse spawns e.cfg
  let ended = serve e events (start e store now)
  some (record {
    broker = broker;
    options = mqtt_options e.cfg conn;
    world = ended.0;
    ending = ended.1;
  })
