-- ===== src/Server/Contract.antt =====
-- The contract of the serve loop of server.rs, as a relation between the events, the requests sent and
-- the runtimes before and after, in which nothing is said of links, worlds and stores.
use aquilo_offline.Base.{◌≡◌, ◌≢◌, refl, sym, ◌∙◌, none, some, List, [], ◌∷◌, Bytes, Str}
use aquilo_offline.Core.Battery.{default_points}
use aquilo_offline.Core.Reading.{Reading, ParseError, ok, err, parse_reading}
use aquilo_offline.Core.State.{to_json}
use aquilo_offline.Server.Firmware.{parse_firmware}
use aquilo_offline.Server.Handler.{
  Request, subscribe, at_most_once, Event, conn_ack, incoming, ignored, poll_error, Env, topics,
  retained, radar_params,
}
use aquilo_offline.Server.Routing.{new_topics-AreDistinct}
use aquilo_offline.Server.Runtime.{Runtime, apply_reading}

module _ {S V R : Type 0} (e : Env S V R) where
  open e use {float, json, parse_ts, decode, storage, cfg, link}

  -- An event that the loop passes over.
  pub data IsIdle : Event → Type 0 where
    nothing : IsIdle ignored
    retried : IsIdle poll_error
    unread :
        {topic : Str} {payload : Bytes} {reason : ParseError}
        → topic ≡ (topics e).read
        → parse_reading float decode payload ≡ err reason
        → IsIdle (incoming topic payload)
    unversioned :
        {topic : Str} {payload : Bytes}
        → topic ≡ (topics e).log
        → parse_firmware json payload ≡ none
        → IsIdle (incoming topic payload)
    elsewhere :
        {topic : Str} {payload : Bytes}
        → topic ≢ (topics e).read
        → topic ≢ (topics e).log
        → IsIdle (incoming topic payload)

  -- From the one runtime, through these events, to the other one, with these requests in order.
  pub data Serves : Runtime R → List (Event × Str) → List Request → Runtime R → Type 0 where
    rests : {rt : Runtime R} → Serves rt [] [] rt
    connects :
        {rt rt' : Runtime R} {now : Str} {es : List (Event × Str)} {rs : List Request}
        {radar state : Bytes}
        → radar_params e ≡ some radar
        → json.to_vec (to_json json rt.current) ≡ some state
        → Serves rt es rs rt'
        → Serves rt
            ((conn_ack, now) ∷ es)
            (retained (topics e).version cfg.firmware_version
              ∷ retained (topics e).radar_params radar
              ∷ retained (topics e).state state
              ∷ subscribe (topics e).read at_most_once
              ∷ subscribe (topics e).log at_most_once
              ∷ subscribe (topics e).connection at_most_once
              ∷ rs)
            rt'
    reads :
        {rt rt1 rt' : Runtime R} {now topic : Str} {payload : Bytes} {es : List (Event × Str)}
        {rs : List Request} {reading : Reading R} {state : Bytes}
        → topic ≡ (topics e).read
        → parse_reading float decode payload ≡ ok reading
        → apply_reading float parse_ts rt cfg default_points reading now ≡ some rt1
        → json.to_vec (to_json json rt1.current) ≡ some state
        → Serves rt1 es rs rt'
        → Serves rt ((incoming topic payload, now) ∷ es) (retained (topics e).state state ∷ rs) rt'
    echoes :
        {rt rt' : Runtime R} {now topic fw : Str} {payload : Bytes} {es : List (Event × Str)}
        {rs : List Request}
        → topic ≡ (topics e).log
        → parse_firmware json payload ≡ some fw
        → Serves rt es rs rt'
        → Serves rt ((incoming topic payload, now) ∷ es) (retained (topics e).version fw ∷ rs) rt'
    idles :
        {rt rt' : Runtime R} {event : Event} {now : Str} {es : List (Event × Str)}
        {rs : List Request}
        → IsIdle event
        → Serves rt es rs rt'
        → Serves rt ((event, now) ∷ es) rs rt'

  idle-read :
      {topic : Str} {payload : Bytes} {reading : Reading R}
      → IsIdle (incoming topic payload)
      → topic ≡ (topics e).read
      → parse_reading float decode payload ≢ ok reading
  idle-read (unread read failed) h parsed = cc
  idle-read (unversioned log failed) h parsed =
      (new_topics-AreDistinct cfg.receiver_id).read_log (sym h ∙ log)
  idle-read (elsewhere a b) h parsed = a h

  idle-log :
      {topic fw : Str} {payload : Bytes}
      → IsIdle (incoming topic payload)
      → topic ≡ (topics e).log
      → parse_firmware json payload ≢ some fw
  idle-log (unread read failed) h parsed =
      (new_topics-AreDistinct cfg.receiver_id).read_log (sym read ∙ h)
  idle-log (unversioned log failed) h parsed = cc
  idle-log (elsewhere a b) h parsed = b h

  -- The contract leaves nothing open: the events and the runtime before them settle what is sent and
  -- the runtime behind them.
  pub Serves-unique :
      {rt rt1 rt2 : Runtime R} {es : List (Event × Str)} {rs ss : List Request}
      → Serves rt es rs rt1
      → Serves rt es ss rt2
      → (rs ≡ ss) × (rt1 ≡ rt2)
  Serves-unique rests rests = (refl, refl)
  Serves-unique (connects a b k) (connects a' b' k') = let (p, q) = Serves-unique k k' in (cc, q)
  Serves-unique (connects a b k) (idles i k') = elim i [ ]
  Serves-unique (reads {rt1 = x} a b c d k) (reads {rt1 = y} a' b' c' d' k') =
      let same : y ≡ x = cc in let (p, q) = Serves-unique k (rw same at k') in (cc, q)
  Serves-unique (reads a b c d k) (echoes a' b' k') =
      absurd ((new_topics-AreDistinct cfg.receiver_id).read_log (sym a ∙ a'))
  Serves-unique (reads a b c d k) (idles i k') = absurd (idle-read i a b)
  Serves-unique (echoes a b k) (reads a' b' c' d' k') =
      absurd ((new_topics-AreDistinct cfg.receiver_id).read_log (sym a' ∙ a))
  Serves-unique (echoes a b k) (echoes a' b' k') = let (p, q) = Serves-unique k k' in (cc, q)
  Serves-unique (echoes a b k) (idles i k') = absurd (idle-log i a b)
  Serves-unique (idles i k) (connects a b k') = elim i [ ]
  Serves-unique (idles i k) (reads a b c d k') = absurd (idle-read i a b)
  Serves-unique (idles i k) (echoes a b k') = absurd (idle-log i a b)
  Serves-unique (idles i k) (idles i' k') = Serves-unique k k'
