-- ===== src/Onboard/Learning.antt =====
-- What `learn` of onboard.rs gathers from the bytes of a device, and when its output is written.
use mathlib.Core.List.{flatten, Memᴰ}
use mathlib.Core.List.Memᴰ
use mathlib.Core.Path.{subst}
use aquilo_offline.Base.{
  ◌≡◌, refl, ◌∙◌, ap, true, false, some, List, [], ◌∷◌, ◌++◌, Bytes, Str, codes, ends_with, ℕ,
  get_elem?, inl, inr, mem_at,
}
use aquilo_offline.Core.Reading.{Reading, ok, parse_reading}
use aquilo_offline.Onboard.Facts.{Facts, is_complete, missing, no_facts}
use aquilo_offline.Onboard.Gathering.{
  Stable, Identified, Versioned, Measured, Identified-Stable, Versioned-Stable, Measured-Stable,
  identified, versioned, measured, together,
}
use aquilo_offline.Onboard.Learn.{
  Chunk, from_device, from_cloud, Proxy, device_packet, device_packets, on_chunk, proxy,
}
use aquilo_offline.Onboard.Observe.{Env}
use aquilo_offline.Onboard.Output.{Session}
use aquilo_offline.Onboard.Progress.{is_complete_iff}
use aquilo_offline.Onboard.Reconnects.{run_learn-Progress}
use aquilo_offline.Onboard.Runs.{
  Proxied, connection, proxied, no_session, learn_connection, run_learn,
}
use aquilo_offline.Onboard.Sessions.{
  maybe_finalize-Progress, device_bytes, device_packets-Progress, proxy_transparent,
}
use aquilo_offline.Onboard.Settled.{Settled, run_learn-Settled}
use aquilo_offline.Onboard.Writing.{IsReliable}
use aquilo_offline.Server.Firmware.{firmware_from_log}
use aquilo_offline.Wire.Chunks.{push_all, push_all-wire, wire, packets, FitFrames}
use aquilo_offline.Wire.Decode.{Packet, Connect, Publish, connect, publish}
use aquilo_offline.Wire.Stream.{incomplete, next_frame, push}

-- The chunks that the device sent, out of those of both sides.
abbrev device_chunks : List (Chunk × Str) → List Bytes
device_chunks [] = []
device_chunks ((from_device b, now) ∷ cs) = b ∷ device_chunks cs
device_chunks ((from_cloud b, now) ∷ cs) = device_chunks cs

flatten-device_chunks : (cs : List (Chunk × Str)) → flatten (device_chunks cs) ≡ device_bytes cs
unfolding flatten
flatten-device_chunks [] = refl
flatten-device_chunks ((from_device b, now) ∷ cs) = ap (λ l. b ++ l) (flatten-device_chunks cs)
flatten-device_chunks ((from_cloud b, now) ∷ cs) = flatten-device_chunks cs

module _ {V W R : Type 0} (e : Env V W R) where
  open e use {float, json, decode, disk, opts}

  module _ (Q : Facts R → Type 0) (stable : Stable Q) (p : Packet) where
    -- A packet that gives the facts the property, whenever it comes.
    record Tells : Type 0 where
      at : (now : Str) (s : Session W R) → Q (device_packet e now p s).facts

    module _ (tells : Tells) where
      told_by_packets :
          (now : Str) (ps : List Packet) (s : Session W R)
          → Memᴰ p ps
          → Q (device_packets e now ps s).facts
      unfolding device_packets
      told_by_packets now [] s m = absurd (Memᴰ.not-nil m)
      told_by_packets now (q ∷ ps) s m = elim (Memᴰ.cases_cons m) [
        | inl same ↦
            stable.stays _ _ (device_packets-Progress e now ps (device_packet e now q s)).facts
              (subst (λ x. Q (device_packet e now x s).facts) same (tells.at now s))
        | inr later ↦ told_by_packets now ps (device_packet e now q s) later
      ]

      -- However the bytes of the device are cut, and whatever the cloud sends between them.
      told_by_chunks :
          (chunks : List (Chunk × Str)) (x : Proxy W R)
          → Memᴰ p (push_all x.device_buf (device_chunks chunks)).out
          → Q (proxy e chunks x).session.facts
      unfolding proxy on_chunk push_all
      told_by_chunks [] x m = absurd (Memᴰ.not-nil m)
      told_by_chunks ((from_device b, now) ∷ cs) x m =
          let d = push x.device_buf b in
          let next = on_chunk e (from_device b) now x in
          elim (Memᴰ.append_cases d.out m) [
            | inl here ↦
                stable.stays _ _ (proxy_transparent e cs next).2.facts
                  (told_by_packets now d.out x.session here)
            | inr later ↦ told_by_chunks cs next later
          ]
      told_by_chunks ((from_cloud b, now) ∷ cs) x m =
          told_by_chunks cs (on_chunk e (from_cloud b) now x) m

  -- One of the connections of a run brings this packet: the bytes of the device there, however they
  -- are cut, are encoded frames and the start of one more, and this is one of their packets.
  pub record Brings (cs : List Proxied) (p : Packet) : Type 0 where
    pub chunks : List (Chunk × Str)
    pub fs : List (ℕ × Bytes)
    pub tail : Bytes
    pub n : ℕ
    pub i : ℕ
    pub comes : get_elem? cs n ≡ some (connection chunks)
    pub fit : FitFrames fs
    pub cut_short : next_frame tail ≡ incomplete
    pub sent : device_bytes chunks ≡ wire fs ++ tail
    pub among : get_elem? (packets fs) i ≡ some p

  module _ (Q : Facts R → Type 0) (stable : Stable Q) (p : Packet) (tells : Tells Q stable p) where
    told_by_run :
        (cs : List Proxied) (chunks : List (Chunk × Str)) (s : Session W R)
        → Memᴰ (connection chunks) cs
        → Memᴰ p (push_all [] (device_chunks chunks)).out
        → Q (run_learn e cs s).facts
    unfolding run_learn learn_connection proxied
    told_by_run [] chunks s m k = absurd (Memᴰ.not-nil m)
    told_by_run (c ∷ cs) chunks s m k = elim (Memᴰ.cases_cons m) [
      | inl same ↦
          let told : Q (learn_connection e (connection chunks) s).facts =
            told_by_chunks Q stable p tells chunks (proxied s) k in
          stable.stays _ _ (run_learn-Progress e cs (learn_connection e c s)).facts
            (subst (λ x. Q (learn_connection e x s).facts) same told)
      | inr later ↦ told_by_run cs chunks (learn_connection e c s) later k
    ]

    told : (cs : List Proxied) (s : Session W R) → Brings cs p → Q (run_learn e cs s).facts
    told cs s b =
        let split =
          push_all-wire b.fs b.tail (device_chunks b.chunks) b.fit b.cut_short
            (flatten-device_chunks b.chunks ∙ b.sent) in
        told_by_run cs b.chunks s (mem_at cs b.n b.comes)
          (rw split (mem_at (packets b.fs) b.i b.among))

  Tells-connect :
      (c : Connect) {user pass : Str}
      → c.username ≡ some user
      → c.password ≡ some pass
      → Tells Identified Identified-Stable (connect c)
  unfolding device_packet
  Tells-connect c u p = record {
    at = λ now s.
        Identified-Stable.stays _ _ (maybe_finalize-Progress float disk opts now _).facts
          (identified e s.facts c u p);
  }

  Tells-log :
      (l : Publish) {fw : Str}
      → ends_with l.topic (codes "/log") ≡ true
      → firmware_from_log json l.payload ≡ some fw
      → Tells Versioned Versioned-Stable (publish l)
  unfolding device_packet
  Tells-log l t fw = record {
    at = λ now s.
        Versioned-Stable.stays _ _ (maybe_finalize-Progress float disk opts now _).facts
          (versioned e s.facts l now t fw);
  }

  Tells-reading :
      (r : Publish) {reading : Reading R}
      → ends_with r.topic (codes "/log") ≡ false
      → ends_with r.topic (codes "/read") ≡ true
      → parse_reading float decode r.payload ≡ ok reading
      → Tells Measured Measured-Stable (publish r)
  unfolding device_packet
  Tells-reading r t t' parsed = record {
    at = λ now s.
        Measured-Stable.stays _ _ (maybe_finalize-Progress float disk opts now _).facts
          (measured e s.facts r now t t' parsed);
  }

  -- Once the device has sent a CONNECT with a user name and a password, a log line with a firmware and
  -- a reading, in any of the connections of a run of `learn` each, all facts that a config needs are
  -- known, none is reported missing and, on a disk on which every write succeeds, the output is
  -- written. The bytes may be cut anywhere, and the cloud may send anything between them or not be
  -- reached in other connections.
  pub run_learn-writes :
      IsReliable disk
      → (cs : List Proxied) (w : W) (c : Connect) (l r : Publish) {user pass fw : Str}
        {reading : Reading R}
      → Brings cs (connect c)
      → c.username ≡ some user
      → c.password ≡ some pass
      → Brings cs (publish l)
      → ends_with l.topic (codes "/log") ≡ true
      → firmware_from_log json l.payload ≡ some fw
      → Brings cs (publish r)
      → ends_with r.topic (codes "/log") ≡ false
      → ends_with r.topic (codes "/read") ≡ true
      → parse_reading float decode r.payload ≡ ok reading
      → (is_complete (run_learn e cs (no_session w)).facts ≡ true)
        × (missing (run_learn e cs (no_session w)).facts ≡ [])
        × ((run_learn e cs (no_session w)).written ≡ true)
  run_learn-writes reliable cs w c l r bc user pass bl log fw br other read parsed =
      let s = no_session w in
      let known =
        told Identified Identified-Stable (connect c) (Tells-connect c user pass) cs s bc in
      let version = told Versioned Versioned-Stable (publish l) (Tells-log l log fw) cs s bl in
      let level =
        told Measured Measured-Stable (publish r) (Tells-reading r other read parsed) cs s br in
      let facts = (run_learn e cs s).facts in
      let complete = together facts known version level in
      let fresh : Settled e s =
        unfold no_session no_facts is_complete in record { settled = λ h. cc } in
      (
        complete,
        (is_complete_iff facts).0 complete,
        (run_learn-Settled e reliable cs s fresh).settled complete,
      )
