-- ===== src/Server/Sends.antt =====
-- What the actions of server.rs send, where they end well.
use aquilo_offline.Base.{
  ◌≡◌, refl, sym, ◌∙◌, ap, Option, none, some, List, [], ◌∷◌, ◌++◌, Bytes, Str, Bool-cases,
  Option-cases, inl, inr, append_assoc, append-nil,
}
use mathlib.Core.List.{map}
use aquilo_offline.Core.Battery.{default_points}
use aquilo_offline.Core.Reading.{Reading}
use aquilo_offline.Core.State.{to_json}
use aquilo_offline.Server.Handler.{
  Request, done, World, Action, ◌▸◌, skip, request, subscribe, at_most_once, conn_ack, Env, topics,
  retained, publish_json, publish_state, radar_params, seed_retained, fold_reading, publish_current,
  handle_read, subscribe_all, on_event,
}
use aquilo_offline.Server.Retained.{continue_done}
use aquilo_offline.Server.Runtime.{Runtime, apply_reading}

module _ {S V R : Type 0} (e : Env S V R) where
  open e use {float, json, parse_ts, decode, storage, cfg, link}

  -- An action that, where it ends well, sends exactly these requests and leaves the runtime alone.
  pub record Adds (a : Action S R) (rs : List Request) : Type 0 where
    pub at : (w : World S R) → (a w).1 ≡ done → ((a w).0.rt ≡ w.rt) × ((a w).0.sent ≡ w.sent ++ rs)

  Adds-skip : Adds skip []
  Adds-skip = record { at = λ w h. (refl, sym (append-nil w.sent)) }

  pub Adds-request : (r : Request) → Adds (request link r) (r ∷ [])
  unfolding request
  Adds-request r = elim (Bool-cases (link r)) [
    | inl taken ↦ record { at = λ w. rw taken (λ h. (refl, refl)) }
    | inr refused ↦ record { at = λ w. rw refused (λ h. cc) }
  ]

  Adds-seq :
      {a b : Action S R} {rs ss : List Request} → Adds a rs → Adds b ss → Adds (a ▸ b) (rs ++ ss)
  Adds-seq {a} {b} {rs} {ss} ka kb = record {
    at = λ w h.
        let (ended, step) = continue_done e (a w) b h in
        let (rt1, sent1) = ka.at w ended in
        let (rt2, sent2) = kb.at (a w).0 (rw step at h) in
        rw step (rt2 ∙ rt1, sent2 ∙ ap (λ l. l ++ ss) sent1 ∙ append_assoc w.sent rs ss);
  }

  Adds-subscribe_all :
      (ts : List Str) → Adds (subscribe_all e ts) (map (λ t. subscribe t at_most_once) ts)
  unfolding subscribe_all
  Adds-subscribe_all [] = Adds-skip
  Adds-subscribe_all (t ∷ ts) =
      Adds-seq (Adds-request (subscribe t at_most_once)) (Adds-subscribe_all ts)

  -- A payload is sent where it serialises.
  publish_json-some :
      (topic : Str) (payload : Option Bytes) (w : World S R)
      → (publish_json e topic payload w).1 ≡ done
      → (bytes : Bytes) × (payload ≡ some bytes)
  publish_json-some topic none w h = cc
  publish_json-some topic (some bytes) w h = (bytes, refl)

  Adds-publish_json :
      (topic : Str) {payload : Option Bytes} {bytes : Bytes}
      → payload ≡ some bytes
      → Adds (publish_json e topic payload) (retained topic bytes ∷ [])
  Adds-publish_json topic {payload} {bytes} made =
      rw made (record { at = (Adds-request (retained topic bytes)).at })

  -- A reading that is folded in leaves the requests alone.
  fold_reading-applied :
      (reading : Reading R) (now : Str) (w : World S R)
      → (fold_reading e reading now w).1 ≡ done
      → (rt1 : Runtime R) × (apply_reading float parse_ts w.rt cfg default_points reading now
          ≡ some rt1)
        × ((fold_reading e reading now w).0.rt ≡ rt1)
        × ((fold_reading e reading now w).0.sent ≡ w.sent)
  unfolding fold_reading
  fold_reading-applied reading now w =
      elim (Option-cases (apply_reading float parse_ts w.rt cfg default_points reading now)) [
        | inl panics ↦ rw (panics, fold_reading) (λ h. cc)
        | inr (rt1, applied) ↦ rw (applied, fold_reading) (λ h. (rt1, refl, refl, refl))
      ]

  pub handle_read-Adds :
      (reading : Reading R) (now : Str) (w : World S R)
      → (handle_read e reading now w).1 ≡ done
      → (rt1 : Runtime R) × (bytes : Bytes) × (apply_reading float parse_ts w.rt cfg default_points
            reading now
          ≡ some rt1)
        × (json.to_vec (to_json json rt1.current) ≡ some bytes)
        × ((handle_read e reading now w).0.rt ≡ rt1)
        × ((handle_read e reading now w).0.sent ≡ w.sent ++ retained (topics e).state bytes ∷ [])
  unfolding handle_read publish_current publish_state
  handle_read-Adds reading now w h =
      let (ended, step) = continue_done e (fold_reading e reading now w) (publish_current e) h in
      let (rt1, applied, same, kept) = fold_reading-applied reading now w ended in
      let next = (fold_reading e reading now w).0 in
      let (bytes, written) =
        publish_json-some (topics e).state (json.to_vec (to_json json next.rt.current)) next
          (rw step at h) in
      let (same', sent) = (Adds-publish_json (topics e).state written).at next (rw step at h) in
      (
        rt1,
        bytes,
        applied,
        rw (← same) written,
        rw step (same' ∙ same),
        rw step (sent ∙ ap (λ l. l ++ retained (topics e).state bytes ∷ []) kept),
      )

  pub conn_ack-Adds :
      (now : Str) (w : World S R)
      → (on_event e conn_ack now w).1 ≡ done
      → (radar : Bytes) × (state : Bytes) × (radar_params e ≡ some radar)
        × (json.to_vec (to_json json w.rt.current) ≡ some state)
        × ((on_event e conn_ack now w).0.rt ≡ w.rt)
        × ((on_event e conn_ack now w).0.sent
            ≡ w.sent
              ++ (retained (topics e).version cfg.firmware_version
                  ∷ retained (topics e).radar_params radar
                  ∷ retained (topics e).state state
                  ∷ subscribe (topics e).read at_most_once
                  ∷ subscribe (topics e).log at_most_once
                  ∷ subscribe (topics e).connection at_most_once
                  ∷ []))
  unfolding on_event seed_retained publish_state
  conn_ack-Adds now w h =
      let ts = (topics e).read ∷ (topics e).log ∷ (topics e).connection ∷ [] in
      let version = retained (topics e).version cfg.firmware_version in
      let first : Action S R = request link version in
      let second = publish_json e (topics e).radar_params (radar_params e) in
      let third = publish_state e w.rt.current in
      let subs = subscribe_all e ts in
      let (ended, step) = continue_done e (seed_retained e w.rt.current w) subs h in
      let (ended2, step2) = continue_done e ((first ▸ second) w) third ended in
      let (ended1, step1) = continue_done e (first w) second ended2 in
      let (radar, made) =
        publish_json-some (topics e).radar_params (radar_params e) (first w).0
          (rw step1 at ended2) in
      let (state, written) =
        publish_json-some (topics e).state (json.to_vec (to_json json w.rt.current))
          ((first ▸ second) w).0 (rw step2 at ended) in
      let seeded : Adds (seed_retained e w.rt.current) _ =
        Adds-seq (Adds-seq (Adds-request version) (Adds-publish_json (topics e).radar_params made))
          (Adds-publish_json (topics e).state written) in
      let (same, sent) = (Adds-seq seeded (Adds-subscribe_all ts)).at w h in
      (radar, state, made, written, same, sent)
