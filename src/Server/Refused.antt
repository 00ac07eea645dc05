-- ===== src/Server/Refused.antt =====
-- The serve loop of server.rs with a client that refuses requests, beside one that takes them all.
use mathlib.Core.Path.{subst}
use aquilo_offline.Base.{
  ◌≡◌, refl, sym, ◌∙◌, ap, true, false, Option, none, some, List, [], ◌∷◌, ◌++◌, ◌⊎◌, Bytes, Str,
  bytes_eq, Bool-cases, Option-cases, inl, inr, append_assoc, append-nil,
}
use aquilo_offline.Core.Battery.{default_points}
use aquilo_offline.Core.Reading.{Reading, Parsed, ok, err, parse_reading}
use aquilo_offline.Core.State.{to_json, SensorState}
use aquilo_offline.Server.Firmware.{parse_firmware}
use aquilo_offline.Server.Handler.{
  Request, Ending, done, failed, panicked, World, Action, continue, ◌▸◌, skip, request, Event,
  conn_ack, incoming, ignored, poll_error, Env, topics, publish_json, publish_state, radar_params,
  seed_retained, fold_reading, publish_current, handle_read, read_or_skip, echo_firmware,
  handle_publish, subscribe_all, on_event, serve,
}
use aquilo_offline.Server.Runtime.{apply_reading}

module _ {S V R : Type 0} (e : Env S V R) where
  open e use {float, json, parse_ts, decode, storage, cfg, link}

  -- The same server with a client that takes every request.
  abbrev pub accepting : Env S V R
  accepting = record e { link = λ r. true }

  -- Two runs end alike; or the first one ends in an error at a request that its client refuses, and has
  -- sent what the second one sends before that request.
  abbrev pub IsCut : World S R × Ending → World S R × Ending → Type 0
  IsCut r r' =
      (r ≡ r')
      ⊎ ((r.1 ≡ failed)
          × (next : Request) × (rest : List Request) × (link next ≡ false)
          × (r'.0.sent ≡ r.0.sent ++ next ∷ rest))

  record Cuts (a b : Action S R) : Type 0 where
    cut : (w : World S R) → IsCut (a w) (b w)
    grows : (w : World S R) → (more : List Request) × ((b w).0.sent ≡ w.sent ++ more)

  Cuts-skip : Cuts skip skip
  Cuts-skip = record { cut = λ w. inl refl; grows = λ w. ([], sym (append-nil w.sent)) }

  Cuts-request : (r : Request) → Cuts (request link r) (request (λ r. true) r)
  unfolding request
  Cuts-request r = record {
    cut = elim (Bool-cases (link r)) [
      | inl taken ↦ rw taken (λ w. inl refl)
      | inr refused ↦ rw refused (λ w. inr (refl, r, [], refused, refl))
    ];
    grows = λ w. (r ∷ [], refl);
  }

  continue-grows :
      {a b : Action S R} (k : Cuts a b) (x : World S R × Ending)
      → (more : List Request) × ((continue x b).0.sent ≡ x.0.sent ++ more)
  continue-grows k (w, done) = k.grows w
  continue-grows k (w, failed) = ([], sym (append-nil w.sent))
  continue-grows k (w, panicked) = ([], sym (append-nil w.sent))

  continue-IsCut :
      {a b : Action S R} (k : Cuts a b) (x : World S R × Ending)
      → IsCut (continue x a) (continue x b)
  continue-IsCut k (w, done) = k.cut w
  continue-IsCut k (w, failed) = inl refl
  continue-IsCut k (w, panicked) = inl refl

  continue_failed : (b : Action S R) (x : World S R × Ending) → x.1 ≡ failed → continue x b ≡ x
  continue_failed b (w, done) h = cc
  continue_failed b (w, failed) h = refl
  continue_failed b (w, panicked) h = cc

  Cuts-seq : {a b c d : Action S R} → Cuts a b → Cuts c d → Cuts (a ▸ c) (b ▸ d)
  Cuts-seq {a} {b} {c} {d} k l = record {
    cut = λ w. elim (k.cut w) [
      | inl same ↦
          subst (λ x. IsCut (continue x c) (continue (b w) d)) (sym same) (continue-IsCut l (b w))
      | inr (ended, next, rest, refused, split) ↦
          let (more, later) = continue-grows l (b w) in
          subst (λ x. IsCut x (continue (b w) d)) (sym (continue_failed c (a w) ended))
            (inr (
              ended,
              next,
              rest ++ more,
              refused,
              later ∙ ap (λ l. l ++ more) split ∙ append_assoc (a w).0.sent (next ∷ rest) more,
            ))
    ];
    grows = λ w.
        let (first, sent) = k.grows w in
        let (more, later) = continue-grows l (b w) in
        (first ++ more, later ∙ ap (λ l. l ++ more) sent ∙ append_assoc w.sent first more);
  }

  -- An action that asks nothing of the client.
  Cuts-alike : (a : Action S R) → ((w : World S R) → (a w).0.sent ≡ w.sent) → Cuts a a
  Cuts-alike a h = record { cut = λ w. inl refl; grows = λ w. ([], h w ∙ sym (append-nil w.sent)) }

  Cuts-publish_json :
      (topic : Str) (payload : Option Bytes)
      → Cuts (publish_json e topic payload) (publish_json accepting topic payload)
  Cuts-publish_json topic none = Cuts-alike (publish_json e topic none) (λ w. refl)
  Cuts-publish_json topic (some bytes) =
      let k = Cuts-request _ in record { cut = k.cut; grows = k.grows }

  Cuts-subscribe_all : (ts : List Str) → Cuts (subscribe_all e ts) (subscribe_all accepting ts)
  unfolding subscribe_all
  Cuts-subscribe_all [] = Cuts-skip
  Cuts-subscribe_all (t ∷ ts) = Cuts-seq (Cuts-request _) (Cuts-subscribe_all ts)

  Cuts-publish_state :
      (state : SensorState R) → Cuts (publish_state e state) (publish_state accepting state)
  unfolding publish_state
  Cuts-publish_state state = Cuts-publish_json (topics e).state (json.to_vec (to_json json state))

  Cuts-seed_retained :
      (state : SensorState R) → Cuts (seed_retained e state) (seed_retained accepting state)
  unfolding seed_retained radar_params
  Cuts-seed_retained state =
      Cuts-seq
        (Cuts-seq (Cuts-request _) (Cuts-publish_json (topics e).radar_params (radar_params e)))
        (Cuts-publish_state state)

  fold_reading_sent :
      (reading : Reading R) (now : Str) (w : World S R)
      → (fold_reading e reading now w).0.sent ≡ w.sent
  unfolding fold_reading
  fold_reading_sent reading now w =
      elim (Option-cases (apply_reading float parse_ts w.rt cfg default_points reading now)) [
        | inl panics ↦ rw (panics, fold_reading) refl
        | inr (rt1, applied) ↦ rw (applied, fold_reading) refl
      ]

  Cuts-publish_current : Cuts (publish_current e) (publish_current accepting)
  unfolding publish_current
  Cuts-publish_current = record {
    cut = λ w. (Cuts-publish_state w.rt.current).cut w;
    grows = λ w. (Cuts-publish_state w.rt.current).grows w;
  }

  Cuts-handle_read :
      (reading : Reading R) (now : Str)
      → Cuts (handle_read e reading now) (handle_read accepting reading now)
  unfolding handle_read fold_reading
  Cuts-handle_read reading now =
      Cuts-seq (Cuts-alike (fold_reading e reading now) (fold_reading_sent reading now))
        Cuts-publish_current

  Cuts-read_or_skip :
      (parsed : Parsed (Reading R)) (now : Str)
      → Cuts (read_or_skip e parsed now) (read_or_skip accepting parsed now)
  Cuts-read_or_skip (ok reading) now = Cuts-handle_read reading now
  Cuts-read_or_skip (err reason) now = Cuts-skip

  Cuts-echo_firmware : (fw : Option Str) → Cuts (echo_firmware e fw) (echo_firmware accepting fw)
  Cuts-echo_firmware none = Cuts-skip
  Cuts-echo_firmware (some fw) = Cuts-request _

  Cuts-handle_publish :
      (topic : Str) (payload : Bytes) (now : Str)
      → Cuts (handle_publish e topic payload now) (handle_publish accepting topic payload now)
  unfolding handle_publish
  Cuts-handle_publish topic payload now = elim (Bool-cases (bytes_eq topic (topics e).read)) [
    | inl e1 ↦ rw e1 (Cuts-read_or_skip (parse_reading float decode payload) now)
    | inr e1 ↦ rw e1 (elim (Bool-cases (bytes_eq topic (topics e).log)) [
      | inl e2 ↦ rw e2 (Cuts-echo_firmware (parse_firmware json payload))
      | inr e2 ↦ rw e2 Cuts-skip
    ])
  ]

  Cuts-on_event :
      (event : Event) (now : Str) → Cuts (on_event e event now) (on_event accepting event now)
  unfolding on_event
  Cuts-on_event conn_ack now =
      let subs =
        Cuts-subscribe_all ((topics e).read ∷ (topics e).log ∷ (topics e).connection ∷ []) in
      record {
        cut = λ w. (Cuts-seq (Cuts-seed_retained w.rt.current) subs).cut w;
        grows = λ w. (Cuts-seq (Cuts-seed_retained w.rt.current) subs).grows w;
      }
  Cuts-on_event (incoming topic payload) now = Cuts-handle_publish topic payload now
  Cuts-on_event ignored now = Cuts-skip
  Cuts-on_event poll_error now = Cuts-skip

  Cuts-serve : (events : List (Event × Str)) → Cuts (serve e events) (serve accepting events)
  unfolding serve
  Cuts-serve [] = Cuts-skip
  Cuts-serve ((event, now) ∷ events) = Cuts-seq (Cuts-on_event event now) (Cuts-serve events)

  -- Whatever the client refuses, the loop does what it would do with a client that refuses nothing; or
  -- it ends in an error at a request that is refused, and what it has sent is what it would have sent
  -- before that request.
  pub serve-IsCut :
      (events : List (Event × Str)) (w : World S R)
      → IsCut (serve e events w) (serve accepting events w)
  serve-IsCut events w = (Cuts-serve events).cut w
