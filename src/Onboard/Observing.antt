-- ===== src/Onboard/Observing.antt =====
-- What `observe` of onboard.rs gathers from the bytes of a device, and when its output is written.
use mathlib.Core.List.{map, flatten, Memᴰ}
use mathlib.Core.List.Memᴰ
use mathlib.Core.Path.{subst}
use aquilo_offline.Base.{
  ◌≡◌, refl, sym, ◌∙◌, ap, arith, true, false, Bool, some, List, [], ◌∷◌, ◌++◌, Bytes, Str, codes,
  ends_with, ℕ, get_elem?, inl, inr, mem_at,
}
use aquilo_offline.Core.Reading.{Reading, ok, parse_reading}
use aquilo_offline.Onboard.Facts.{Facts, is_complete}
use aquilo_offline.Onboard.Gathering.{
  Stable, Identified, Versioned, Identified-Stable, Versioned-Stable, identified, versioned,
  measured, together,
}
use aquilo_offline.Onboard.Observe.{Env, connected, running, observe}
use aquilo_offline.Onboard.Observed.{
  timed, bytes_of, timed-wire, learn_packet, learn_packets, learn_packets-append, observe-learns,
}
use aquilo_offline.Onboard.Output.{Session}
use aquilo_offline.Onboard.Progress.{apply_device_connect-Extends, apply_device_publish-Extends}
use aquilo_offline.Onboard.Sessions.{
  Progress, Progress-refl, Progress-trans, maybe_finalize-Progress, with_facts-Progress,
}
use aquilo_offline.Onboard.Writing.{IsReliable, reading_written, still_written}
use aquilo_offline.Server.Firmware.{firmware_from_log}
use aquilo_offline.Wire.Chunks.{wire, packets, FitFrames}
use aquilo_offline.Wire.Decode.{Packet, Connect, Publish, connect, publish}
use aquilo_offline.Wire.Stream.{incomplete, next_frame}

abbrev untimed : List (Packet × Str) → List Packet
untimed xs = map (λ x. x.0) xs

-- A packet among timed ones splits them.
record Split (xs : List (Packet × Str)) (ps : List Packet) (p : Packet) (qs : List Packet)
    : Type 0 where
  before : List (Packet × Str)
  now : Str
  behind : List (Packet × Str)
  whole : xs ≡ before ++ (p, now) ∷ behind
  first : untimed before ≡ ps

Split-untimed :
    (xs : List (Packet × Str)) (ps : List Packet) (p : Packet) (qs : List Packet)
    → untimed xs ≡ ps ++ p ∷ qs
    → Split xs ps p qs
Split-untimed [] [] p qs h = cc
Split-untimed [] (q ∷ ps) p qs h = cc
Split-untimed ((x, now) ∷ xs) [] p qs h = record {
  before = [];
  now = now;
  behind = xs;
  whole = cc;
  first = refl;
}
Split-untimed ((x, now) ∷ xs) (q ∷ ps) p qs h =
    let rest = Split-untimed xs ps p qs cc in
    record {
      before = (x, now) ∷ rest.before;
      now = rest.now;
      behind = rest.behind;
      whole = ap (λ l. (x, now) ∷ l) rest.whole;
      first = let same : x ≡ q = cc in rw (same, rest.first);
    }

module _ {V W R : Type 0} (e : Env V W R) where
  open e use {float, json, decode, disk, opts, accepts}

  learn_packet-Progress : (x : Packet × Str) (s : Session W R) → Progress s (learn_packet e x s)
  unfolding learn_packet
  learn_packet-Progress (connect c, now) s =
      with_facts-Progress s _ (apply_device_connect-Extends s.facts c).0
  learn_packet-Progress (publish p, now) s =
      Progress-trans
        (with_facts-Progress s _
          (apply_device_publish-Extends float json decode s.facts p.topic p.payload now))
        (maybe_finalize-Progress float disk opts now _)
  learn_packet-Progress (_, now) s = Progress-refl s

  learn_packets-Progress :
      (xs : List (Packet × Str)) (s : Session W R) → Progress s (learn_packets e xs s)
  unfolding learn_packets
  learn_packets-Progress [] s = Progress-refl s
  learn_packets-Progress (x ∷ xs) s =
      Progress-trans (learn_packet-Progress x s) (learn_packets-Progress xs (learn_packet e x s))

  -- Among packets it is enough that one gives the facts the property, whenever it comes.
  known_from :
      (Q : Facts R → Type 0) (stable : Stable Q) (p : Packet)
      → ((now : Str) (s : Session W R) → Q (learn_packet e (p, now) s).facts)
      → (xs : List (Packet × Str)) (s : Session W R) → Memᴰ p (untimed xs)
      → Q (learn_packets e xs s).facts
  unfolding learn_packets
  known_from Q stable p gives [] s m = absurd (Memᴰ.not-nil m)
  known_from Q stable p gives ((q, now) ∷ xs) s m = elim (Memᴰ.cases_cons m) [
    | inl same ↦
        stable.stays _ _ (learn_packets-Progress xs (learn_packet e (q, now) s)).facts
          (subst (λ x. Q (learn_packet e (x, now) s).facts) same (gives now s))
    | inr later ↦ known_from Q stable p gives xs (learn_packet e (q, now) s) later
  ]

  connect_gives :
      (c : Connect) {user pass : Str}
      → c.username ≡ some user
      → c.password ≡ some pass
      → (now : Str) (s : Session W R) → Identified (learn_packet e (connect c, now) s).facts
  unfolding learn_packet
  connect_gives c u p now s = identified e s.facts c u p

  log_gives :
      (l : Publish) {fw : Str}
      → ends_with l.topic (codes "/log") ≡ true
      → firmware_from_log json l.payload ≡ some fw
      → (now : Str) (s : Session W R) → Versioned (learn_packet e (publish l, now) s).facts
  unfolding learn_packet
  log_gives l t fw now s =
      Versioned-Stable.stays _ _ (maybe_finalize-Progress float disk opts now _).facts
        (versioned e s.facts l now t fw)

  Complete-Stable : Stable {R = R} (λ f. is_complete f ≡ true)
  unfolding is_complete
  Complete-Stable = record { stays = λ f g h q. ground arith }

  reading_settles :
      IsReliable disk
      → (now : Str) (r : Publish) (s : Session W R) {reading : Reading R} → Identified s.facts
      → Versioned s.facts
      → ends_with r.topic (codes "/log") ≡ false
      → ends_with r.topic (codes "/read") ≡ true
      → parse_reading float decode r.payload ≡ ok reading
      → (is_complete (learn_packet e (publish r, now) s).facts ≡ true)
        × ((learn_packet e (publish r, now) s).written ≡ true)
  unfolding learn_packet
  reading_settles reliable now r s known fw other read parsed =
      let more = apply_device_publish-Extends float json decode s.facts r.topic r.payload now in
      (
        Complete-Stable.stays _ _ (maybe_finalize-Progress float disk opts now _).facts (
            together _ (Identified-Stable.stays s.facts _ more known)
              (Versioned-Stable.stays s.facts _ more fw)
              (measured e s.facts r now other read parsed)),
        reading_written e reliable now r s known fw other read parsed,
      )

  -- Without the cloud: a connection over which the device sends encoded frames and the start of one
  -- more, cut anywhere, among them a CONNECT with a user name and a password and a log line with a
  -- firmware, and behind both a reading: if the connection goes on, all facts that a config needs are
  -- known and, on a disk on which every write succeeds, the output is written.
  pub observe-writes :
      IsReliable disk
      → (chunks : List (Bytes × Str)) (written : Bool) (w : W) (fs : List (ℕ × Bytes))
        (tail : Bytes) (ps qs : List Packet) (i j : ℕ) (c : Connect) (l r : Publish)
        {user pass fw : Str} {reading : Reading R}
      → FitFrames fs
      → next_frame tail ≡ incomplete
      → flatten (bytes_of chunks) ≡ wire fs ++ tail
      → packets fs ≡ ps ++ publish r ∷ qs
      → get_elem? ps i ≡ some (connect c)
      → c.username ≡ some user
      → c.password ≡ some pass
      → get_elem? ps j ≡ some (publish l)
      → ends_with l.topic (codes "/log") ≡ true
      → firmware_from_log json l.payload ≡ some fw
      → ends_with r.topic (codes "/log") ≡ false
      → ends_with r.topic (codes "/read") ≡ true
      → parse_reading float decode r.payload ≡ ok reading
      → (observe e chunks (connected e written w)).1 ≡ running
      → (is_complete (observe e chunks (connected e written w)).0.session.facts ≡ true)
        × ((observe e chunks (connected e written w)).0.session.written ≡ true)
  unfolding connected learn_packets
  observe-writes reliable chunks written w fs tail ps qs i j c l r fit short bytes all hi user pass
        hj log fw other read parsed h =
      let o = connected e written w in
      let xs = timed [] chunks in
      let at =
        Split-untimed xs ps (publish r) qs (timed-wire fs tail chunks fit short bytes ∙ all) in
      let s1 = learn_packets e at.before o.session in
      let known =
        known_from Identified Identified-Stable (connect c) (connect_gives c user pass) at.before
          o.session (subst (Memᴰ (connect c)) (sym at.first) (mem_at ps i hi)) in
      let version =
        known_from Versioned Versioned-Stable (publish l) (log_gives l log fw) at.before o.session
          (subst (Memᴰ (publish l)) (sym at.first) (mem_at ps j hj)) in
      let s2 = learn_packet e (publish r, at.now) s1 in
      let (complete, wrote) =
        reading_settles reliable at.now r s1 known version other read parsed in
      let later = learn_packets-Progress at.behind s2 in
      let s3 = learn_packets e at.behind s2 in
      let end : (observe e chunks o).0.session ≡ s3 =
        observe-learns e chunks o h
        ∙ ap (λ l. learn_packets e l o.session) at.whole
        ∙ learn_packets-append e at.before ((publish r, at.now) ∷ at.behind) o.session in
      rw end (
        Complete-Stable.stays s2.facts s3.facts later.facts complete,
        still_written e s2.written s3.written s2.disk s3.disk wrote later.frozen,
      )
