-- ===== src/Examples/Streams.antt =====
-- The bytes of a device that announces itself, cut into chunks, to the stand-in broker and through the
-- proxy.
use mathlib.Core.List.{flatten}
use aquilo_offline.Base.{
  ℕ, get_elem?, ◌≡◌, refl, arith, true, false, some, none, List, [], ◌∷◌, ◌++◌, Bytes, Str, codes,
  take, drop, ends_with, from_utf8, from_utf8_lossy, scan, scan_byte,
}
use aquilo_offline.Examples.Gathering.{device, message, log_line, measured}
use aquilo_offline.Examples.Toy.{observe_env}
use aquilo_offline.Onboard.Facts.{is_complete, missing}
use aquilo_offline.Onboard.Learn.{from_device, from_cloud}
use aquilo_offline.Onboard.Learning.{Brings, run_learn-writes}
use aquilo_offline.Onboard.Observe.{
  running, connected, observe, on_chunk, on_packets, on_packet, send, seed_when_ready,
}
use aquilo_offline.Onboard.Observed.{learn_packets, timed, observe-learns}
use aquilo_offline.Onboard.Observing.{observe-writes}
use aquilo_offline.Onboard.Runs.{Proxied, unreachable, connection, no_session, run_learn}
use aquilo_offline.Wire.Chunks.{wire, packets}
use aquilo_offline.Wire.Decode.{
  Packet, connect, publish, ping_req, decode_body, decode_connect, decode_publish, read_str,
  read_bytes, u16_of, optional_id, rest_from, skip_will, optional_str,
}
use aquilo_offline.Wire.Encode.{frame, encode_len, str_field}
use aquilo_offline.Wire.Layout.{connect_body, publish_body}
use aquilo_offline.Wire.Stream.{next_frame, push, drain_loop, finish_frame, varint_loop}

-- A log line, a CONNECT, a ping and a reading.
abbrev frames : List (ℕ × Bytes)
frames =
    (0x30, publish_body (message (codes "/x/log") (codes "1.2")))
    ∷ (
      0x10,
      connect_body
          (record {
            protocol = codes "MQTT";
            level = 4;
            flags = 0xc2;
            keep_hi = 0;
            keep_lo = 60;
            will = none;
          })
          device,
    )
    ∷ (0xc0, [])
    ∷ (0x30, publish_body (message (codes "/x/read") (codes "r")))
    ∷ []

abbrev before_reading : List Packet
before_reading = publish (message (codes "/x/log") (codes "1.2")) ∷ connect device ∷ ping_req ∷ []

decoded : packets frames ≡ before_reading ++ publish (message (codes "/x/read") (codes "r")) ∷ []
unfolding decode_body decode_connect decode_publish read_str read_bytes u16_of optional_id rest_from
    skip_will optional_str str_field from_utf8 from_utf8_lossy scan scan_byte
decoded = refl

-- With the first byte of one more frame.
abbrev stream : Bytes
stream = wire frames ++ 0x30 ∷ []

abbrev cut : List (Bytes × Str)
cut = (take 20 stream, codes "T") ∷ (drop 20 stream, codes "U") ∷ []

rejoined : flatten (take 20 stream ∷ drop 20 stream ∷ []) ≡ stream
unfolding flatten frame encode_len str_field
rejoined = refl

goes_on : (observe observe_env cut (connected observe_env false [])).1 ≡ running
unfolding observe on_chunk on_packets on_packet seed_when_ready send connected push drain_loop
    next_frame finish_frame varint_loop frame encode_len str_field decode_body decode_connect
    decode_publish read_str read_bytes u16_of optional_id rest_from skip_will optional_str
    from_utf8_lossy scan scan_byte
goes_on = refl

observe-writes_example :
    (is_complete (observe observe_env cut (connected observe_env false [])).0.session.facts ≡ true)
    × ((observe observe_env cut (connected observe_env false [])).0.session.written ≡ true)
observe-writes_example =
    observe-writes observe_env (record { write = λ w p b. refl; save = λ w d p. refl }) cut false []
      frames (0x30 ∷ []) before_reading [] 1 0 device (message (codes "/x/log") (codes "1.2"))
      (message (codes "/x/read") (codes "r"))
      (unfold str_field in (omega arith, (omega arith, (omega arith, (omega arith, tt)))))
      (unfold next_frame in refl) rejoined decoded refl refl refl refl (unfold ends_with in refl)
      log_line (unfold ends_with in refl) (unfold ends_with in refl) measured goes_on

-- The cloud is not reached at first; then the same bytes, with some of the cloud's between them.
abbrev attempts : List Proxied
attempts =
    unreachable
    ∷ connection (
        (from_device (take 20 stream), codes "T")
        ∷ (from_cloud (0x20 ∷ 2 ∷ 0 ∷ []), codes "T")
        ∷ (from_device (drop 20 stream), codes "U")
        ∷ [])
    ∷ []

module _ (i : ℕ) (p : Packet) (h : get_elem? (packets frames) i ≡ some p) where
  brought : Brings observe_env attempts p
  unfolding frame encode_len str_field flatten
  brought = record {
    chunks = _;
    fs = frames;
    tail = 0x30 ∷ [];
    n = 1;
    i = i;
    comes = refl;
    fit = unfold str_field in (omega arith, (omega arith, (omega arith, (omega arith, tt))));
    cut_short = unfold next_frame in refl;
    sent = refl;
    among = h;
  }

run_learn-writes_example :
    (is_complete (run_learn observe_env attempts (no_session [])).facts ≡ true)
    × (missing (run_learn observe_env attempts (no_session [])).facts ≡ [])
    × ((run_learn observe_env attempts (no_session [])).written ≡ true)
run_learn-writes_example =
    run_learn-writes observe_env (record { write = λ w p b. refl; save = λ w d p. refl }) attempts
      [] device (message (codes "/x/log") (codes "1.2")) (message (codes "/x/read") (codes "r"))
      (brought 1 (connect device) (rw decoded refl)) refl refl
      (brought 0 (publish (message (codes "/x/log") (codes "1.2"))) (rw decoded refl))
      (unfold ends_with in refl) log_line
      (brought 3 (publish (message (codes "/x/read") (codes "r"))) (rw decoded refl))
      (unfold ends_with in refl) (unfold ends_with in refl) measured

observe-learns_example :
    (observe observe_env cut (connected observe_env false [])).0.session
    ≡ learn_packets observe_env (timed [] cut) (connected observe_env false []).session
unfolding connected
observe-learns_example = observe-learns observe_env cut (connected observe_env false []) goes_on
