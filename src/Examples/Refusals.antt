-- ===== src/Examples/Refusals.antt =====
-- A run of the serve loop with a client that refuses requests, with the stand-ins of Toy.
use aquilo_offline.Base.{ℕ, ℤ, true, false, List, [], ◌∷◌, codes, Bool}
use aquilo_offline.Examples.Toy.{server_env}
use aquilo_offline.Server.Handler.{
  Request, publish, subscribe, Env, Event, conn_ack, poll_error, start, serve,
}
use aquilo_offline.Server.Refused.{accepting, IsCut, serve-IsCut}
use aquilo_offline.Server.Runtime.{Loaded, absent}

-- A client that publishes, and refuses to subscribe.
abbrev only_publishes : Request → Bool
only_publishes (publish m) = true
only_publishes (subscribe t q) = false

abbrev refusing : Env (Loaded ℤ) (List ℕ) ℤ
refusing = record server_env { link = only_publishes }

abbrev events : List (Event × List ℕ)
events = (poll_error, codes "T") ∷ (conn_ack, codes "T") ∷ []

serve-IsCut_example :
    IsCut refusing
      (serve refusing events (start refusing absent (codes "T")))
      (serve (accepting refusing) events (start refusing absent (codes "T")))
serve-IsCut_example = serve-IsCut refusing events (start refusing absent (codes "T"))
