-- ===== src/Onboard/Settled.antt =====
-- When `learn` of onboard.rs has written what it knows.
use aquilo_offline.Base.{◌≡◌, refl, Bool-cases, true, List, [], ◌∷◌, Str, inl, inr}
use aquilo_offline.Onboard.Facts.{is_complete}
use aquilo_offline.Onboard.Learn.{
  Chunk, from_device, from_cloud, Proxy, device_packet, device_packets, on_chunk, proxy,
}
use aquilo_offline.Onboard.Observe.{Env}
use aquilo_offline.Onboard.Output.{Session, maybe_finalize}
use aquilo_offline.Onboard.Runs.{
  Proxied, unreachable, connection, proxied, learn_connection, run_learn,
}
use aquilo_offline.Onboard.Sessions.{maybe_finalize_lem}
use aquilo_offline.Onboard.Writing.{IsReliable, write_outputs-done}
use aquilo_offline.Wire.Decode.{Packet, connect, publish}
use aquilo_offline.Wire.Stream.{push}

module _ {V W R : Type 0} (e : Env V W R) where
  open e use {float, json, decode, disk, opts}

  -- Complete facts have been written.
  pub record Settled (s : Session W R) : Type 0 where
    pub settled : is_complete s.facts ≡ true → s.written ≡ true

  module _ (reliable : IsReliable disk) where
    maybe_finalize-Settled :
        (now : Str) (s : Session W R) → Settled (maybe_finalize float disk opts now s)
    maybe_finalize-Settled now s =
        rw (maybe_finalize_lem float disk opts now s) (elim (Bool-cases s.written) [
          | inl e1 ↦ rw e1 (record { settled = λ h. refl })
          | inr e1 ↦ rw e1 (elim (Bool-cases (is_complete s.facts)) [
            | inl e2 ↦ rw e2 (record {
              settled = λ h. write_outputs-done float disk reliable opts s.disk s.facts now e2;
            })
            | inr e2 ↦ rw e2 (record { settled = λ h. cc })
          ])
        ])

    device_packet-Settled :
        (now : Str) (p : Packet) (s : Session W R) → Settled (device_packet e now p s)
    unfolding device_packet
    device_packet-Settled now (connect c) s = maybe_finalize-Settled now _
    device_packet-Settled now (publish p) s = maybe_finalize-Settled now _
    device_packet-Settled now _ s = maybe_finalize-Settled now s

    device_packets-Settled :
        (now : Str) (ps : List Packet) (s : Session W R)
        → Settled s
        → Settled (device_packets e now ps s)
    unfolding device_packets
    device_packets-Settled now [] s h = h
    device_packets-Settled now (p ∷ ps) s h =
        device_packets-Settled now ps (device_packet e now p s) (device_packet-Settled now p s)

    proxy-Settled :
        (chunks : List (Chunk × Str)) (x : Proxy W R)
        → Settled x.session
        → Settled (proxy e chunks x).session
    unfolding proxy on_chunk
    proxy-Settled [] x h = h
    proxy-Settled ((from_device b, now) ∷ cs) x h =
        proxy-Settled cs (on_chunk e (from_device b) now x)
          (device_packets-Settled now (push x.device_buf b).out x.session h)
    proxy-Settled ((from_cloud b, now) ∷ cs) x h =
        proxy-Settled cs (on_chunk e (from_cloud b) now x) (maybe_finalize-Settled now _)

    pub run_learn-Settled :
        (cs : List Proxied) (s : Session W R) → Settled s → Settled (run_learn e cs s)
    unfolding run_learn learn_connection proxied
    run_learn-Settled [] s h = h
    run_learn-Settled (unreachable ∷ cs) s h = run_learn-Settled cs s h
    run_learn-Settled (connection chunks ∷ cs) s h =
        run_learn-Settled cs _ (proxy-Settled chunks (proxied s) h)
