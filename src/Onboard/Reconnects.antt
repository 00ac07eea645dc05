-- ===== src/Onboard/Reconnects.antt =====
-- What is kept over the connections of onboard.rs.
use aquilo_offline.Base.{refl, List, [], ◌∷◌, Bytes, Str}
use aquilo_offline.Onboard.Observe.{Env, connected}
use aquilo_offline.Onboard.Output.{Session}
use aquilo_offline.Onboard.Runs.{
  Proxied, unreachable, connection, proxied, learn_connection, run_learn, observe_connection,
  run_observe,
}
use aquilo_offline.Onboard.Seeding.{observe-IsOrderly}
use aquilo_offline.Onboard.Sessions.{
  Frozen, Frozen-refl, Frozen-trans, Progress, Progress-refl, Progress-trans, proxy_transparent,
}

module _ {V W R : Type 0} (e : Env V W R) where
  pub learn_connection-Progress :
      (c : Proxied) (s : Session W R) → Progress s (learn_connection e c s)
  unfolding learn_connection proxied
  learn_connection-Progress unreachable s = Progress-refl s
  learn_connection-Progress (connection chunks) s = (proxy_transparent e chunks (proxied s)).2

  -- Over any connections of `learn`, in which the cloud may be unreachable and any chunk cut: a fact
  -- that is known keeps its value for the rest of the run, and once the output is written the flag
  -- stays set and the disk is not touched again.
  pub run_learn-Progress : (cs : List Proxied) (s : Session W R) → Progress s (run_learn e cs s)
  unfolding run_learn
  run_learn-Progress [] s = Progress-refl s
  run_learn-Progress (c ∷ cs) s =
      Progress-trans (learn_connection-Progress c s)
        (run_learn-Progress cs (learn_connection e c s))

  observe_connection-Frozen :
      (chunks : List (Bytes × Str)) (s : Session W R)
      → Frozen s.written s.disk
          (observe_connection e chunks s).written
          (observe_connection e chunks s).disk
  unfolding observe_connection connected
  observe_connection-Frozen chunks s =
      (observe-IsOrderly e chunks (connected e s.written s.disk) (record { order = refl })).0.frozen

  -- Over any connections of `observe`: once the output is written the flag stays set and the disk is
  -- not touched again, though each connection starts with no facts.
  pub run_observe-Frozen :
      (cs : List (List (Bytes × Str))) (s : Session W R)
      → Frozen s.written s.disk (run_observe e cs s).written (run_observe e cs s).disk
  unfolding run_observe
  run_observe-Frozen [] s = Frozen-refl s.written s.disk
  run_observe-Frozen (c ∷ cs) s =
      let next = observe_connection e c s in
      Frozen-trans s.written next.written (run_observe e cs next).written s.disk next.disk
        (run_observe e cs next).disk (observe_connection-Frozen c s) (run_observe-Frozen cs next)
