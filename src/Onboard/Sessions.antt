-- ===== src/Onboard/Sessions.antt =====
-- A session of onboard.rs over any run: its facts, its flag and the disk.
use aquilo_offline.Base.{
  ◌≡◌, refl, ◌∙◌, arith, F64, Bool, true, false, List, [], ◌∷◌, ◌++◌, Bytes, Str, Bool-cases, inl,
  inr, append_assoc, append-nil, if◌then◌else◌, sym,
}
use aquilo_offline.Onboard.Facts.{Facts, is_complete}
use aquilo_offline.Onboard.Output.{OnboardOptions, Disk, Session, write_outputs, maybe_finalize}
use aquilo_offline.Onboard.Observe.{Env}
use aquilo_offline.Onboard.Learn.{
  Proxy, Chunk, from_device, from_cloud, device_packet, device_packets, cloud_packet, cloud_packets,
  on_chunk, proxy,
}
use aquilo_offline.Onboard.Progress.{
  Extends, Extends-refl, Extends-trans, apply_device_connect-Extends, apply_device_publish-Extends,
  apply_cloud_publish-Extends,
}
use aquilo_offline.Wire.Decode.{Packet, connect, publish}
use aquilo_offline.Wire.Stream.{push}

-- Once the flag is set it stays set, and the disk stays as it is.
abbrev pub Frozen : {W : Type 0} → Bool → W → Bool → W → Type 0
Frozen false w later w' = Unit
Frozen true w later w' = (later ≡ true) × (w' ≡ w)

pub record Progress {W R : Type 0} (s s' : Session W R) : Type 0 where
  pub facts : Extends s.facts s'.facts
  pub frozen : Frozen s.written s.disk s'.written s'.disk

module _ {W : Type 0} where
  pub Frozen-refl : (b : Bool) (w : W) → Frozen b w b w
  Frozen-refl true w = (refl, refl)
  Frozen-refl false w = tt

  pub Frozen-trans :
      (b1 b2 b3 : Bool) (w1 w2 w3 : W)
      → Frozen b1 w1 b2 w2
      → Frozen b2 w2 b3 w3
      → Frozen b1 w1 b3 w3
  Frozen-trans false b2 b3 w1 w2 w3 h k = tt
  Frozen-trans true b2 b3 w1 w2 w3 h k = let k' = rw h.0 at k in (k'.0, k'.1 ∙ h.1)

module _ {W R : Type 0} where
  pub Progress-refl : (s : Session W R) → Progress s s
  Progress-refl s = record { facts = Extends-refl s.facts; frozen = Frozen-refl s.written s.disk }

  pub Progress-trans : {s t u : Session W R} → Progress s t → Progress t u → Progress s u
  Progress-trans {s} {t} {u} a b = record {
    facts = Extends-trans a.facts b.facts;
    frozen = Frozen-trans s.written t.written u.written s.disk t.disk u.disk a.frozen b.frozen;
  }

  pub with_facts-Progress :
      (s : Session W R) (f : Facts R) → Extends s.facts f → Progress s (record s { facts = f })
  with_facts-Progress s f h = record { facts = h; frozen = Frozen-refl s.written s.disk }

module _ {W R : Type 0} (F : F64 R) (D : Disk W R) (opts : OnboardOptions) where
  -- The output is written exactly when the facts are complete and it was not written before; then the
  -- flag says whether the write succeeded, so that a failed one is tried again. The facts stay.
  pub maybe_finalize_lem :
      (now : Str) (s : Session W R)
      → maybe_finalize F D opts now s ≡ (
          if s.written
          then s
          else if is_complete s.facts
          then record {
            facts = s.facts;
            written = (write_outputs F D s.disk s.facts opts now).1;
            disk = (write_outputs F D s.disk s.facts opts now).0;
          }
          else s)
  unfolding maybe_finalize
  maybe_finalize_lem now s = ground arith

  finalize_flag :
      (now : Str) (f : Facts R) (b : Bool) (w : W)
      → Progress
          (record { facts = f; written = b; disk = w })
          (maybe_finalize F D opts now (record { facts = f; written = b; disk = w }))
  finalize_flag now f true w =
      rw (maybe_finalize_lem now (record { facts = f; written = true; disk = w })) (Progress-refl _)
  finalize_flag now f false w =
      rw (maybe_finalize_lem now (record { facts = f; written = false; disk = w }))
        (elim (Bool-cases (is_complete f)) [
          | inl e ↦ rw e (record { facts = Extends-refl f; frozen = tt })
          | inr e ↦ rw e (record { facts = Extends-refl f; frozen = tt })
        ])

  pub maybe_finalize-Progress :
      (now : Str) (s : Session W R) → Progress s (maybe_finalize F D opts now s)
  maybe_finalize-Progress now s = finalize_flag now s.facts s.written s.disk

-- What a run carries from either side.
abbrev pub device_bytes : List (Chunk × Str) → Bytes
device_bytes [] = []
device_bytes ((from_device b, now) ∷ cs) = b ++ device_bytes cs
device_bytes ((from_cloud b, now) ∷ cs) = device_bytes cs

abbrev pub cloud_bytes : List (Chunk × Str) → Bytes
cloud_bytes [] = []
cloud_bytes ((from_device b, now) ∷ cs) = cloud_bytes cs
cloud_bytes ((from_cloud b, now) ∷ cs) = b ++ cloud_bytes cs

module _ {V W R : Type 0} (e : Env V W R) where
  open e use {float, json, decode, disk, opts}

  finalized :
      {s : Session W R} (now : Str) {t : Session W R}
      → Progress s t
      → Progress s (maybe_finalize float disk opts now t)
  finalized now {t} h = Progress-trans h (maybe_finalize-Progress float disk opts now t)

  device_packet-Progress :
      (now : Str) (p : Packet) (s : Session W R) → Progress s (device_packet e now p s)
  unfolding device_packet
  device_packet-Progress now (connect c) s =
      finalized now (with_facts-Progress s _ (apply_device_connect-Extends s.facts c).0)
  device_packet-Progress now (publish p) s = finalized now (
      with_facts-Progress s _
        (apply_device_publish-Extends float json decode s.facts p.topic p.payload now))
  device_packet-Progress now _ s = finalized now (Progress-refl s)

  pub device_packets-Progress :
      (now : Str) (ps : List Packet) (s : Session W R) → Progress s (device_packets e now ps s)
  unfolding device_packets
  device_packets-Progress now [] s = Progress-refl s
  device_packets-Progress now (p ∷ ps) s =
      Progress-trans (device_packet-Progress now p s)
        (device_packets-Progress now ps (device_packet e now p s))

  cloud_packets-Progress : (ps : List Packet) (s : Session W R) → Progress s (cloud_packets e ps s)
  unfolding cloud_packets cloud_packet
  cloud_packets-Progress [] s = Progress-refl s
  cloud_packets-Progress (publish p ∷ ps) s =
      Progress-trans
        (with_facts-Progress s _
          (apply_cloud_publish-Extends float json decode s.facts p.topic p.payload))
        (cloud_packets-Progress ps (cloud_packet e (publish p) s))
  cloud_packets-Progress (_ ∷ ps) s = cloud_packets-Progress ps s

  on_chunk-Progress :
      (chunk : Chunk) (now : Str) (p : Proxy W R)
      → Progress p.session (on_chunk e chunk now p).session
  unfolding on_chunk
  on_chunk-Progress (from_device bytes) now p =
      device_packets-Progress now (push p.device_buf bytes).out p.session
  on_chunk-Progress (from_cloud bytes) now p =
      finalized now (cloud_packets-Progress (push p.cloud_buf bytes).out p.session)

  -- The proxy is transparent: each side gets exactly the bytes of the other, in order, whatever the
  -- decoders make of them. Meanwhile no fact that is known changes, and once the output is written
  -- the flag stays set and the disk is not touched again.
  pub proxy_transparent :
      (chunks : List (Chunk × Str)) (p : Proxy W R)
      → ((proxy e chunks p).to_cloud ≡ p.to_cloud ++ device_bytes chunks)
        × ((proxy e chunks p).to_device ≡ p.to_device ++ cloud_bytes chunks)
        × Progress p.session (proxy e chunks p).session
  unfolding proxy on_chunk
  proxy_transparent [] p =
      (sym (append-nil p.to_cloud), sym (append-nil p.to_device), Progress-refl p.session)
  proxy_transparent ((from_device bytes, now) ∷ cs) p =
      let p' = on_chunk e (from_device bytes) now p in
      let (cloud, device, kept) = proxy_transparent cs p' in
      (
        cloud ∙ append_assoc p.to_cloud bytes (device_bytes cs),
        device,
        Progress-trans (on_chunk-Progress (from_device bytes) now p) kept,
      )
  proxy_transparent ((from_cloud bytes, now) ∷ cs) p =
      let p' = on_chunk e (from_cloud bytes) now p in
      let (cloud, device, kept) = proxy_transparent cs p' in
      (
        cloud,
        device ∙ append_assoc p.to_device bytes (cloud_bytes cs),
        Progress-trans (on_chunk-Progress (from_cloud bytes) now p) kept,
      )
