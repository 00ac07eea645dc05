-- ===== src/Examples/Restarts.antt =====
-- A run of the server that is stopped and started again, with the stand-ins of Toy.
use aquilo_offline.Base.{ℕ, ◌≢◌, ◌≡◌, refl, List, [], ◌∷◌, ◌++◌, codes}
use aquilo_offline.Examples.Toy.{server_env}
use aquilo_offline.Server.Handler.{Event, conn_ack, incoming, poll_error, start, serve}
use aquilo_offline.Server.Runtime.{absent, found, snapshot}
use aquilo_offline.Server.Sessions.{
  Session, all_events, AreTimed, run_sessions, restarts-transparent,
}
use aquilo_offline.Server.Topics.{new_topics}

-- A reading, and the time of its arrival.
abbrev first_session : List (Event × List ℕ)
first_session = (incoming (new_topics (codes "r1")).read (codes "x"), codes "T") ∷ []

-- A failed poll before the broker accepts the client; then another session without a message.
abbrev later_sessions : List Session
later_sessions =
    (codes "U", (poll_error, codes "U") ∷ (conn_ack, codes "U") ∷ [])
    ∷ (codes "V", (conn_ack, codes "V") ∷ [])
    ∷ []

some_text : codes "T" ≢ []
some_text = cc

timed : AreTimed (first_session ++ all_events later_sessions)
timed = (some_text, ((λ e. cc), ((λ e. cc), ((λ e. cc), tt))))

restarts-transparent_example :
    ((run_sessions server_env absent ((codes "T", first_session) ∷ later_sessions)).0
      ≡ (serve server_env
          (first_session ++ all_events later_sessions)
          (start server_env absent (codes "T"))).0.sent)
    × (server_env.storage.load
          (run_sessions server_env absent ((codes "T", first_session) ∷ later_sessions)).1
        ≡ found (
            snapshot server_env.cfg
              (serve server_env
                (first_session ++ all_events later_sessions)
                (start server_env absent (codes "T"))).0.rt))
restarts-transparent_example =
    restarts-transparent server_env (record { takes = λ r. refl; serialises = λ v. refl })
      (record { reads = λ s p. refl }) absent (codes "T") first_session later_sessions timed
