-- ===== src/Onboard/Resume.antt =====
-- What the broker retains when a server starts, and after onboarding.
use aquilo_offline.Base.{◌≡◌, ◌≢◌, refl, ap, ◌∙◌, true, Option, some, none, [], ◌∷◌, Str, inl, inr}
use aquilo_offline.Core.State.{to_json}
use aquilo_offline.Onboard.Facts.{Facts}
use aquilo_offline.Onboard.Handover.{disk_of, onboarded, handover}
use aquilo_offline.Onboard.Output.{
  OnboardOptions, Complete, complete_facts, initial_state, write_outputs,
}
use aquilo_offline.Server.Handler.{done, Env, topics, conn_ack, on_event, start, serve}
use aquilo_offline.Server.Keeps.{Keeps-conn_ack}
use aquilo_offline.Server.Retained.{retained_on, continue_done}
use aquilo_offline.Server.Runtime.{load_runtime, Runtime}
use aquilo_offline.Server.Serve.{serve-connected}
use aquilo_offline.Store.{Files, Fault, Codec, in_dir, file_store}
use aquilo_offline.Store.Crash.{Reads}

-- Seeding and subscribing leave the runtime alone.
conn_ack-rt :
    {S V R : Type 0} (e : Env S V R) (store : S) (now at : Str)
    → (serve e ((conn_ack, at) ∷ []) (start e store now)).1 ≡ done
    → (serve e ((conn_ack, at) ∷ []) (start e store now)).0.rt ≡ (start e store now).rt
unfolding serve
conn_ack-rt e store now at h =
    let w = start e store now in
    let (ended, step) = continue_done e (on_event e conn_ack at w) (serve e []) h in
    let kept = (Keeps-conn_ack e (λ w'. w'.rt ≡ w.rt) (λ w' r made k. k) at).at w refl in
    ap (λ r. r.0.rt) step ∙ kept

-- On its first CONNACK a started server retains the state that it has loaded.
start-retained :
    {S V R : Type 0} (e : Env S V R) (store : S) (now at : Str)
    → (serve e ((conn_ack, at) ∷ []) (start e store now)).1 ≡ done
    → retained_on (topics e).state (serve e ((conn_ack, at) ∷ []) (start e store now)).0.sent
      ≡ e.json.to_vec (to_json e.json (load_runtime e.storage e.cfg store now).current)
unfolding start
start-retained e store now at h =
    (serve-connected e at [] (start e store now) h).current
    ∙ ap (λ (rt : Runtime _). e.json.to_vec (to_json e.json rt.current))
        (conn_ack-rt e store now at h)

-- From onboarding to the device: with a config file that is not one of the store's two files, and a
-- codec that reads back what it wrote. Where onboarding has written its output and the server that
-- starts over these files gets through its first CONNACK, all facts were known and the broker retains
-- their state.
pub onboarded-retained :
    {V R : Type 0} (e : Env Files V R) (C : Codec R) (fault : Fault) (fs : Files) (f : Facts R)
    (opts : OnboardOptions) (now later at : Str) (parent : Str → Option Str)
    → e.storage ≡ file_store C (in_dir e.cfg.data_dir) fault
    → e.cfg.data_dir ≡ opts.data_dir
    → opts.out_config ≢ (in_dir opts.data_dir).path
    → opts.out_config ≢ (in_dir opts.data_dir).tmp
    → ((c : Complete R)
        → complete_facts f ≡ some c
        → Reads C (in_dir opts.data_dir).path fs (initial_state e.float f c now))
    → (write_outputs e.float (disk_of C parent none fault) fs f opts now).1 ≡ true
    → (serve e
        ((conn_ack, at) ∷ [])
        (start e (write_outputs e.float (disk_of C parent none fault) fs f opts now).0 later)).1
      ≡ done
    → (c : Complete R) × (complete_facts f ≡ some c)
      × (retained_on
            (topics e).state
            (serve e ((conn_ack, at) ∷ []) (
              start e
                (write_outputs e.float (disk_of C parent none fault) fs f opts now).0
                later)).0.sent
          ≡ e.json.to_vec (to_json e.json (onboarded f c e.cfg now).current))
onboarded-retained e C fault fs f opts now later at parent stored same path tmp reads written h =
    let left = (write_outputs e.float (disk_of C parent none fault) fs f opts now).0 in
    elim (handover e.float C parent fault fs f opts e.cfg now later same path tmp reads none) [
      | inl (stopped, _) ↦ cc
      | inr (_, c, known, loaded, _) ↦ (
        c,
        known,
        start-retained e left later at h
            ∙ ap (λ st. e.json.to_vec (to_json e.json (load_runtime st e.cfg left later).current))
                stored
            ∙ ap (λ (rt : Runtime _). e.json.to_vec (to_json e.json rt.current)) loaded,
      )
    ]
