-- ===== src/Server/Requests.antt =====
-- What the loop of server.rs asks of its MQTT client.
use aquilo_offline.Base.{
  ◌≡◌, ◌≢◌, inl, inr, ℕ, some, List, [], ◌∷◌, Str, All, All-append, All-get_elem?, get_elem?, ◌∙◌,
  sym, Option-cases,
}
use aquilo_offline.Core.Battery.{default_points}
use aquilo_offline.Core.Reading.{Reading}
use aquilo_offline.Server.Handler.{
  Message, publish, subscribe, QoS, World, Event, Env, topics, start, serve, fold_reading,
}
use aquilo_offline.Server.Keeps.{IsRead, IsWritten, IsMade, serve-Keeps}
use aquilo_offline.Server.Routing.{AreDistinct, new_topics-AreDistinct}
use aquilo_offline.Server.Runtime.{apply_reading}
use aquilo_offline.Server.Topics.{Topics}

-- A topic that is written is none that is read.
separate : (t : Topics) (a b : Str) → AreDistinct t → IsWritten t a → IsRead t b → a ≢ b
separate t a b d w r = elim w [
  | inl w1 ↦ elim r [
    | inl r1 ↦ λ h. d.version_read (sym w1 ∙ h ∙ r1)
    | inr (inl r2) ↦ λ h. d.version_log (sym w1 ∙ h ∙ r2)
    | inr (inr r3) ↦ λ h. d.version_connection (sym w1 ∙ h ∙ r3)
  ]
  | inr (inl w2) ↦ elim r [
    | inl r1 ↦ λ h. d.radar_params_read (sym w2 ∙ h ∙ r1)
    | inr (inl r2) ↦ λ h. d.radar_params_log (sym w2 ∙ h ∙ r2)
    | inr (inr r3) ↦ λ h. d.radar_params_connection (sym w2 ∙ h ∙ r3)
  ]
  | inr (inr w3) ↦ elim r [
    | inl r1 ↦ λ h. d.state_read (sym w3 ∙ h ∙ r1)
    | inr (inl r2) ↦ λ h. d.state_log (sym w3 ∙ h ∙ r2)
    | inr (inr r3) ↦ λ h. d.state_connection (sym w3 ∙ h ∙ r3)
  ]
]

module _ {S V R : Type 0} (e : Env S V R) where
  open e use {float, json, parse_ts, decode, storage, cfg, link}

  abbrev AreMade : World S R → Type 0
  AreMade w = All (IsMade (topics e)) w.sent

  fold_reading-AreMade :
      (reading : Reading R) (now : Str) (w : World S R)
      → AreMade w
      → AreMade (fold_reading e reading now w).0
  unfolding fold_reading
  fold_reading-AreMade reading now w h =
      elim (Option-cases (apply_reading float parse_ts w.rt cfg default_points reading now)) [
        | inl e' ↦ rw (fold_reading, e') h
        | inr (rt, e') ↦ rw (fold_reading, e') h
      ]

  serve-AreMade :
      (events : List (Event × Str)) (store : S) (now : Str)
      → AreMade (serve e events (start e store now)).0
  unfolding start
  serve-AreMade events store now =
      serve-Keeps e AreMade
        (λ w r made h. All-append (IsMade (topics e)) w.sent (r ∷ []) h (made, tt))
        fold_reading-AreMade events (start e store now) (tt)

  -- Through any events, however the loop ends: a message that it publishes is retained, at QoS 1, on
  -- one of the three topics that it writes; a subscription is at QoS 0 to one of the three that it
  -- reads; and so no message that it publishes is on a topic that it subscribes to.
  pub serve-requests :
      (events : List (Event × Str)) (store : S) (now : Str) (i j : ℕ) (m : Message) (t : Str)
      (q : QoS)
      → get_elem? (serve e events (start e store now)).0.sent i ≡ some (publish m)
      → get_elem? (serve e events (start e store now)).0.sent j ≡ some (subscribe t q)
      → IsMade (topics e) (publish m) × IsMade (topics e) (subscribe t q) × (m.topic ≢ t)
  serve-requests events store now i j m t q h k =
      let all = serve-AreMade events store now in
      let published = All-get_elem? (IsMade (topics e)) _ i all h in
      let subscribed = All-get_elem? (IsMade (topics e)) _ j all k in
      (
        published,
        subscribed,
        separate (topics e) m.topic t (new_topics-AreDistinct cfg.receiver_id) published.0
            subscribed.0,
      )
