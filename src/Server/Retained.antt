-- ===== src/Server/Retained.antt =====
-- What the broker retains after the requests of server.rs, and which actions leave it alone.
use aquilo_offline.Base.{
  ◌≡◌, ◌≢◌, refl, sym, ◌∙◌, Option, none, some, List, [], ◌∷◌, ◌++◌, Bytes, Str, bytes_eq,
  bytes_eq_refl, bytes_eq-false, if◌then◌else◌, Bool-cases, inl, inr,
}
use aquilo_offline.Core.State.{to_json}
use aquilo_offline.Server.Handler.{
  at_most_once, Request, publish, subscribe, Ending, done, failed, panicked, World, Action,
  continue, ◌▸◌, retained, publish_json, skip, request, Env, topics, subscribe_all,
}

-- What a broker retains on a topic after one more request, if it keeps what it is sent: a broker that
-- restarts in between, and has lost what it held, is not in it.
abbrev pub stored : Str → Request → Option Bytes → Option Bytes
stored topic (subscribe t q) before = before
stored topic (publish m) before =
    if bytes_eq topic m.topic then (if m.retain then some m.payload else before) else before

unfoldable pub retained_from : Str → Option Bytes → List Request → Option Bytes
retained_from topic before [] = before
retained_from topic before (r ∷ rs) = retained_from topic (stored topic r before) rs

-- From an empty broker on: the last retained payload on the topic.
unfoldable pub retained_on : Str → List Request → Option Bytes
unfolding retained_from
retained_on topic = retained_from topic none

retained_from-append :
    (topic : Str) (before : Option Bytes) (rs : List Request) (r : Request)
    → retained_from topic before (rs ++ r ∷ []) ≡ stored topic r (retained_from topic before rs)
unfolding retained_from
retained_from-append topic before [] r = refl
retained_from-append topic before (x ∷ rs) r =
    retained_from-append topic (stored topic x before) rs r

module _ {S V R : Type 0} (e : Env S V R) where
  open e use {float, json, parse_ts, decode, storage, cfg, link}

  abbrev pub state_topic : Str
  state_topic = (topics e).state

  -- The retained `/state` is the current state.
  pub record IsPublished (w : World S R) : Type 0 where
    pub current : retained_on (topics e).state w.sent ≡ json.to_vec (to_json json w.rt.current)

  -- An action that, where it ends well, leaves the runtime and the retained `/state` alone.
  pub record Quiet (a : Action S R) : Type 0 where
    pub at :
        (w : World S R)
        → (a w).1 ≡ done
        → ((a w).0.rt ≡ w.rt)
          × (retained_on state_topic (a w).0.sent ≡ retained_on state_topic w.sent)

  pub Quiet-skip : Quiet skip
  Quiet-skip = record { at = λ w h. (refl, refl) }

  -- A request that stores nothing on the state's topic.
  pub Quiet-request :
      (r : Request)
      → ((before : Option Bytes) → stored state_topic r before ≡ before)
      → Quiet (request link r)
  unfolding request retained_on
  Quiet-request r other = elim (Bool-cases (link r)) [
    | inl taken ↦ record {
      at = λ w. rw taken (λ h. (refl, retained_from-append state_topic none w.sent r ∙ other _));
    }
    | inr refused ↦ record { at = λ w. rw refused (λ h. cc) }
  ]

  pub Quiet-retained :
      (topic : Str) (payload : Bytes)
      → topic ≢ state_topic
      → Quiet (request link (retained topic payload))
  Quiet-retained topic payload h =
      Quiet-request (retained topic payload) (λ before. rw (bytes_eq-false (λ p. h (sym p))) refl)

  -- Where the first action ends well the second one runs.
  pub continue_done :
      (r : World S R × Ending) (b : Action S R)
      → (continue r b).1 ≡ done
      → (r.1 ≡ done) × (continue r b ≡ b r.0)
  continue_done (w, done) b h = (refl, refl)
  continue_done (w, failed) b h = cc
  continue_done (w, panicked) b h = cc

  pub Quiet-seq : {a b : Action S R} → Quiet a → Quiet b → Quiet (a ▸ b)
  Quiet-seq {a} {b} qa qb = record {
    at = λ w h.
        let (ended, step) = continue_done (a w) b h in
        let (rt1, kept1) = qa.at w ended in
        let (rt2, kept2) = qb.at (a w).0 (rw step at h) in rw step (rt2 ∙ rt1, kept2 ∙ kept1);
  }

  pub Quiet-publish_json :
      (topic : Str) (payload : Option Bytes)
      → topic ≢ state_topic
      → Quiet (publish_json e topic payload)
  Quiet-publish_json topic none h = record { at = λ w k. cc }
  Quiet-publish_json topic (some payload) h = record { at = (Quiet-retained topic payload h).at }

  pub Quiet-subscribe_all : (ts : List Str) → Quiet (subscribe_all e ts)
  unfolding subscribe_all
  Quiet-subscribe_all [] = Quiet-skip
  Quiet-subscribe_all (t ∷ ts) =
      Quiet-seq (Quiet-request (subscribe t at_most_once) (λ before. refl)) (Quiet-subscribe_all ts)

  pub Quiet-IsPublished :
      {a : Action S R}
      → Quiet a
      → (w : World S R) → (a w).1 ≡ done
      → IsPublished w
      → IsPublished (a w).0
  Quiet-IsPublished {a} q w h p =
      let (same, kept) = q.at w h in record { current = kept ∙ p.current ∙ sym (rw same refl) }

  -- Publishing the current state makes it the retained one.
  pub publish_json-IsPublished :
      (w : World S R) (payload : Option Bytes)
      → payload ≡ json.to_vec (to_json json w.rt.current)
      → (publish_json e state_topic payload w).1 ≡ done
      → IsPublished (publish_json e state_topic payload w).0
  unfolding request retained_on
  publish_json-IsPublished w none eq h = cc
  publish_json-IsPublished w (some payload) eq h =
      elim (Bool-cases (link (retained state_topic payload))) [
        | inl taken ↦ rw taken (record {
          current =
              retained_from-append state_topic none w.sent (retained state_topic payload)
              ∙ rw (bytes_eq_refl state_topic) eq;
        })
        | inr refused ↦ cc (rw refused at h)
      ]
