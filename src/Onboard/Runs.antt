-- ===== src/Onboard/Runs.antt =====
-- `run_learn` and `run_observe` of onboard.rs: one connection after the other, with what is shared
-- between them. The listener is bound; an error of a connection is logged, and one of `accept` ends
-- the run, which is the end of the sequence.
use aquilo_offline.Base.{false, List, [], ◌∷◌, Bytes, Str}
use aquilo_offline.Onboard.Facts.{no_facts}
use aquilo_offline.Onboard.Learn.{Proxy, Chunk, proxy}
use aquilo_offline.Onboard.Observe.{Env, connected, observe}
use aquilo_offline.Onboard.Output.{Session}

-- A device's connection in `learn`: the cloud is not reached, or the chunks pass both ways.
pub data Proxied : Type 0 where
  unreachable : Proxied
  connection : List (Chunk × Str) → Proxied

module _ {W R : Type 0} where
  -- The start of `run_learn`.
  unfoldable pub no_session : W → Session W R
  unfolding no_facts
  no_session w = record { facts = no_facts; written = false; disk = w }

  -- A connection begins with new decoders and nothing written.
  unfoldable pub proxied : Session W R → Proxy W R
  proxied s = record { session = s; device_buf = []; cloud_buf = []; to_cloud = []; to_device = [] }

module _ {V W R : Type 0} (e : Env V W R) where
  unfoldable pub learn_connection : Proxied → Session W R → Session W R
  unfolding proxied proxy
  learn_connection unreachable s = s
  learn_connection (connection chunks) s = (proxy e chunks (proxied s)).session

  -- The facts, the flag and the disk go on from one connection to the next.
  unfoldable pub run_learn : List Proxied → Session W R → Session W R
  unfolding learn_connection
  run_learn [] s = s
  run_learn (c ∷ cs) s = run_learn cs (learn_connection c s)

  -- In `observe` the facts are those of one connection; the flag and the disk go on.
  unfoldable pub observe_connection : List (Bytes × Str) → Session W R → Session W R
  unfolding connected observe
  observe_connection chunks s = (observe e chunks (connected e s.written s.disk)).0.session

  unfoldable pub run_observe : List (List (Bytes × Str)) → Session W R → Session W R
  unfolding observe_connection
  run_observe [] s = s
  run_observe (c ∷ cs) s = run_observe cs (observe_connection c s)
