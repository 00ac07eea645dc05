-- ===== src/Server/Fulfils.antt =====
-- The serve loop of server.rs keeps its contract.
use aquilo_offline.Base.{
  ◌≡◌, ◌≢◌, refl, sym, ◌∙◌, ap, false, Option, none, some, List, [], ◌∷◌, ◌++◌, Bytes, Str,
  bytes_eq, bytes_eq_iff, bytes_eq_refl, Bool-cases, inl, inr, append_assoc, append-nil,
}
use aquilo_offline.Core.Reading.{Reading, Parsed, ok, err, parse_reading}
use aquilo_offline.Server.Firmware.{parse_firmware}
use aquilo_offline.Server.Handler.{
  Request, Ending, done, World, Event, conn_ack, incoming, ignored, poll_error, Env, topics,
  retained, read_or_skip, echo_firmware, handle_publish, on_event, serve,
}
use aquilo_offline.Server.Retained.{continue_done}
use aquilo_offline.Server.Runtime.{Runtime}
use aquilo_offline.Server.Contract.{
  IsIdle, nothing, retried, unread, unversioned, elsewhere, Serves, rests, connects, reads, echoes,
  idles,
}
use aquilo_offline.Server.Sends.{Adds-request, handle_read-Adds, conn_ack-Adds}

bytes_eq-ne : {xs ys : Bytes} → bytes_eq xs ys ≡ false → xs ≢ ys
bytes_eq-ne {xs} {ys} h e = cc (rw (e, bytes_eq_refl ys) at h)

module _ {S V R : Type 0} (e : Env S V R) where
  open e use {float, json, parse_ts, decode, storage, cfg, link}

  module _ (es : List (Event × Str)) (ss : List Request) (rt' : Runtime R) where
    -- What an event that ends in `r` adds, in front of what the events behind it do.
    abbrev Extends : Event → Str → World S R → World S R × Ending → Type 0
    Extends event now w r =
        r.1 ≡ done
        → Serves e r.0.rt es ss rt'
        → (rs : List Request) × (r.0.sent ≡ w.sent ++ rs)
          × Serves e w.rt ((event, now) ∷ es) (rs ++ ss) rt'

    Extends-idle :
        (event : Event) (now : Str) (w : World S R) → IsIdle e event → Extends event now w (w, done)
    Extends-idle event now w idle = λ h k. ([], sym (append-nil w.sent), idles idle k)

    read_or_skip-Extends :
        (parsed : Parsed (Reading R)) (topic : Str) (payload : Bytes) (now : Str) (w : World S R)
        → topic ≡ (topics e).read
        → parse_reading float decode payload ≡ parsed
        → Extends (incoming topic payload) now w (read_or_skip e parsed now w)
    read_or_skip-Extends (ok reading) topic payload now w read parsed = λ h k.
        let (rt1, state, applied, written, same, sent) = handle_read-Adds e reading now w h in
        (_, sent, reads read parsed applied written (rw same at k))
    read_or_skip-Extends (err reason) topic payload now w read parsed =
        Extends-idle (incoming topic payload) now w (unread read parsed)

    echo_firmware-Extends :
        (fw : Option Str) (topic : Str) (payload : Bytes) (now : Str) (w : World S R)
        → topic ≡ (topics e).log
        → parse_firmware json payload ≡ fw
        → Extends (incoming topic payload) now w (echo_firmware e fw w)
    echo_firmware-Extends none topic payload now w log parsed =
        Extends-idle (incoming topic payload) now w (unversioned log parsed)
    echo_firmware-Extends (some fw) topic payload now w log parsed = λ h k.
        let (same, sent) = (Adds-request e (retained (topics e).version fw)).at w h in
        (_, sent, echoes log parsed (rw same at k))

    handle_publish-Extends :
        (topic : Str) (payload : Bytes) (now : Str) (w : World S R)
        → Extends (incoming topic payload) now w (handle_publish e topic payload now w)
    unfolding handle_publish
    handle_publish-Extends topic payload now w =
        elim (Bool-cases (bytes_eq topic (topics e).read)) [
          | inl e1 ↦ rw e1 (
              read_or_skip-Extends (parse_reading float decode payload) topic payload now w
                ((bytes_eq_iff topic (topics e).read).0 e1) refl)
          | inr e1 ↦ rw e1 (elim (Bool-cases (bytes_eq topic (topics e).log)) [
            | inl e2 ↦ rw e2 (
                echo_firmware-Extends (parse_firmware json payload) topic payload now w
                  ((bytes_eq_iff topic (topics e).log).0 e2) refl)
            | inr e2 ↦ rw e2 (
                Extends-idle (incoming topic payload) now w
                  (elsewhere (bytes_eq-ne e1) (bytes_eq-ne e2)))
          ])
        ]

    on_event-Extends :
        (event : Event) (now : Str) (w : World S R) → Extends event now w (on_event e event now w)
    unfolding on_event
    on_event-Extends conn_ack now w = λ h k.
        let (radar, state, made, written, same, sent) = conn_ack-Adds e now w h in
        (_, sent, connects made written (rw same at k))
    on_event-Extends (incoming topic payload) now w = handle_publish-Extends topic payload now w
    on_event-Extends ignored now w = Extends-idle ignored now w nothing
    on_event-Extends poll_error now w = Extends-idle poll_error now w retried

  -- The serve loop keeps its contract: where no error and no panic ends it, the requests that it adds
  -- and the runtime that it ends with are related to the events and the runtime before them.
  pub serve-Serves :
      (events : List (Event × Str)) (w : World S R)
      → (serve e events w).1 ≡ done
      → (rs : List Request) × ((serve e events w).0.sent ≡ w.sent ++ rs)
        × Serves e w.rt events rs (serve e events w).0.rt
  unfolding serve
  serve-Serves [] w h = ([], sym (append-nil w.sent), rests)
  serve-Serves ((event, now) ∷ events) w h =
      let (ended, step) = continue_done e (on_event e event now w) (serve e events) h in
      let (ss, sent, k) = serve-Serves events (on_event e event now w).0 (rw step at h) in
      let (rs, sent', k') =
        on_event-Extends events ss (serve e events (on_event e event now w).0).0.rt event now w
          ended k in
      (rs ++ ss, rw step (sent ∙ ap (λ l. l ++ ss) sent' ∙ append_assoc w.sent rs ss), rw step k')
