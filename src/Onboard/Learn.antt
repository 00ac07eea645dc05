-- ===== src/Onboard/Learn.antt =====
-- `proxy_connection` of onboard.rs: the transparent proxy. Both halves run in one task, and nothing
-- in a half waits between the packets of a chunk, so that a run is a sequence of whole chunks from
-- either side. A failed write or a closed side ends the run, which is the end of the sequence; what it
-- may have written of one more chunk, which no decoder has seen, is left out.
use aquilo_offline.Base.{List, [], ◌∷◌, ◌++◌, Bytes, Str}
use aquilo_offline.Onboard.Facts.{
  Facts, apply_device_connect, apply_device_publish, apply_cloud_publish,
}
use aquilo_offline.Onboard.Output.{Session, maybe_finalize}
use aquilo_offline.Onboard.Observe.{Env}
use aquilo_offline.Wire.Decode.{Packet, connect, publish}
use aquilo_offline.Wire.Stream.{push}

pub record Proxy (W R : Type 0) : Type 0 where
  pub session : Session W R
  pub device_buf : Bytes
  pub cloud_buf : Bytes
  -- what was written to each side
  pub to_cloud : Bytes
  pub to_device : Bytes

pub data Chunk : Type 0 where
  from_device from_cloud : Bytes → Chunk

module _ {V W R : Type 0} (e : Env V W R) where
  open e use {float, json, decode, disk, opts}

  abbrev with_facts : (Facts R → Facts R) → Session W R → Session W R
  with_facts f s = record s { facts = f s.facts }

  unfoldable pub device_packet : Str → Packet → Session W R → Session W R
  device_packet now (connect c) s =
      maybe_finalize float disk opts now (with_facts (λ f. apply_device_connect f c) s)
  device_packet now (publish p) s =
      maybe_finalize float disk opts now
        (with_facts (λ f. apply_device_publish float json decode f p.topic p.payload now) s)
  device_packet now _ s = maybe_finalize float disk opts now s

  unfoldable pub device_packets : Str → List Packet → Session W R → Session W R
  unfolding device_packet
  device_packets now [] s = s
  device_packets now (p ∷ ps) s = device_packets now ps (device_packet now p s)

  unfoldable pub cloud_packet : Packet → Session W R → Session W R
  cloud_packet (publish p) s =
      with_facts (λ f. apply_cloud_publish float json decode f p.topic p.payload) s
  cloud_packet _ s = s

  unfoldable pub cloud_packets : List Packet → Session W R → Session W R
  unfolding cloud_packet
  cloud_packets [] s = s
  cloud_packets (p ∷ ps) s = cloud_packets ps (cloud_packet p s)

  -- One chunk: written on as it is, then read by that side's decoder.
  unfoldable pub on_chunk : Chunk → Str → Proxy W R → Proxy W R
  unfolding device_packets cloud_packets push
  on_chunk (from_device bytes) now p =
      let d = push p.device_buf bytes in
      record p {
        session = device_packets now d.out p.session;
        device_buf = d.buf;
        to_cloud = p.to_cloud ++ bytes;
      }
  on_chunk (from_cloud bytes) now p =
      let d = push p.cloud_buf bytes in
      record p {
        session = maybe_finalize float disk opts now (cloud_packets d.out p.session);
        cloud_buf = d.buf;
        to_device = p.to_device ++ bytes;
      }

  unfoldable pub proxy : List (Chunk × Str) → Proxy W R → Proxy W R
  unfolding on_chunk
  proxy [] p = p
  proxy ((chunk, now) ∷ chunks) p = proxy chunks (on_chunk chunk now p)
