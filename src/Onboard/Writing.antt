-- ===== src/Onboard/Writing.antt =====
-- When the stand-in broker of onboard.rs writes its output.
use aquilo_offline.Base.{
  ◌≡◌, refl, ap, sym, ◌∙◌, arith, F64, Bool, true, false, ◌++◌, Option, some, none, List, [], ◌∷◌,
  Bytes, Str, codes, ends_with, ℕ, get_elem?, Bool-cases, Option-cases, inl, inr, is_some,
}
use aquilo_offline.Core.Reading.{Reading, ok, parse_reading}
use aquilo_offline.Onboard.Facts.{Facts, is_complete, apply_device_publish}
use aquilo_offline.Onboard.Gathering.{
  Identified, Versioned, Identified-Stable, Versioned-Stable, Gives-on_packets, Gives-connect,
  Gives-publish, identified, versioned, measured, together,
}
use aquilo_offline.Onboard.Handshake.{Forward-on_packets}
use aquilo_offline.Onboard.Observe.{
  Observer, Status, running, closed, failed, Action, continue, ◌▸◌, Env, with_facts, acknowledge,
  finalize, send, on_packet, on_packets,
}
use aquilo_offline.Onboard.Output.{
  OnboardOptions, complete_facts, initial_state, Disk, Session, save_after, make_parent,
  write_outputs, config_text, maybe_finalize,
}
use aquilo_offline.Onboard.Progress.{apply_device_publish-Extends}
use aquilo_offline.Onboard.Sessions.{Frozen, maybe_finalize_lem}
use aquilo_offline.Server.Firmware.{firmware_from_log}
use aquilo_offline.Server.Runtime.{PersistedState}
use aquilo_offline.Wire.Decode.{Packet, Connect, Publish, connect, publish}
use aquilo_offline.Wire.Encode.{puback}

-- A disk on which every write succeeds.
pub record IsReliable {W R : Type 0} (D : Disk W R) : Type 0 where
  pub write : (w : W) (path : Str) (bytes : Bytes) → (D.write w path bytes).1 ≡ true
  pub save : (w : W) (dir : Str) (p : PersistedState R) → (D.save w dir p).1 ≡ true

module _ {W R : Type 0} (F : F64 R) (D : Disk W R) (reliable : IsReliable D)
    (opts : OnboardOptions) where
  save_after-done :
      (r : W × Bool) (dir : Str) (p : PersistedState R)
      → r.1 ≡ true
      → (save_after F D r dir p).1 ≡ true
  save_after-done (w, true) dir p h = reliable.save w dir p
  save_after-done (w, false) dir p h = cc

  complete_facts-some : (f : Facts R) → is_complete f ≡ true → is_some (complete_facts f) ≡ true
  unfolding is_complete complete_facts
  complete_facts-some f h = ground arith

  pub write_outputs-done :
      (w : W) (f : Facts R) (now : Str)
      → is_complete f ≡ true
      → (write_outputs F D w f opts now).1 ≡ true
  unfolding write_outputs
  write_outputs-done w f now h = elim (Option-cases (complete_facts f)) [
    | inl e ↦ let known = complete_facts-some f h in cc
    | inr (c, e) ↦ rw e (
        save_after-done _ opts.data_dir (initial_state F f c now) (
          reliable.write (make_parent F D w (D.parent opts.out_config)) opts.out_config
            (config_text F f c opts)))
  ]

  finalize_written :
      (now : Str) (f : Facts R) (b : Bool) (w : W)
      → is_complete f ≡ true
      → (maybe_finalize F D opts now (record { facts = f; written = b; disk = w })).written ≡ true
  finalize_written now f true w h =
      ap (λ s. s.written)
        (maybe_finalize_lem F D opts now (record { facts = f; written = true; disk = w }))
  finalize_written now f false w h =
      ap (λ s. s.written)
        (maybe_finalize_lem F D opts now (record { facts = f; written = false; disk = w }))
      ∙ rw h (write_outputs-done w f now h)

module _ {V W R : Type 0} (e : Env V W R) where
  open e use {float, json, decode, disk, opts, accepts}

  continue-continue :
      (r : Observer W R × Status) (a b c : Action W R)
      → ((o : Observer W R) → c o ≡ continue (a o) b)
      → continue r c ≡ continue (continue r a) b
  continue-continue (o, running) a b c h = h o
  continue-continue (o, closed) a b c h = refl
  continue-continue (o, failed) a b c h = refl

  -- Packets one behind the other.
  on_packets-append :
      (now : Str) (ps qs : List Packet) (o : Observer W R)
      → on_packets e now (ps ++ qs) o ≡ continue (on_packets e now ps o) (on_packets e now qs)
  unfolding on_packets
  on_packets-append now [] qs o = refl
  on_packets-append now (p ∷ ps) qs o =
      continue-continue (on_packet e now p o) (on_packets e now ps) (on_packets e now qs)
        (on_packets e now (ps ++ qs)) (on_packets-append now ps qs)

  -- Where what follows is reached, the first part had ended well.
  pub continue_running :
      (r : Observer W R × Status) (b : Action W R)
      → (continue r b).1 ≡ running
      → (r.1 ≡ running) × (continue r b ≡ b r.0)
  continue_running (o, running) b h = (refl, refl)
  continue_running (o, closed) b h = cc
  continue_running (o, failed) b h = cc

  pub still_written : (b later : Bool) (w w' : W) → b ≡ true → Frozen b w later w' → later ≡ true
  still_written true later w w' h k = k.0
  still_written false later w w' h k = cc

  pub reading_written :
      IsReliable disk
      → (now : Str) (r : Publish) (s : Session W R) {reading : Reading R} → Identified s.facts
      → Versioned s.facts
      → ends_with r.topic (codes "/log") ≡ false
      → ends_with r.topic (codes "/read") ≡ true
      → parse_reading float decode r.payload ≡ ok reading
      → (maybe_finalize float disk opts now (record s {
        facts = apply_device_publish float json decode s.facts r.topic r.payload now;
      })).written
        ≡ true
  reading_written reliable now r s known fw other read parsed =
      let f = apply_device_publish float json decode s.facts r.topic r.payload now in
      let more = apply_device_publish-Extends float json decode s.facts r.topic r.payload now in
      finalize_written float disk reliable opts now f s.written s.disk (
        together f (Identified-Stable.stays s.facts f more known)
          (Versioned-Stable.stays s.facts f more fw) (measured e s.facts r now other read parsed))

  publish_written :
      IsReliable disk
      → (now : Str) (r : Publish) (id : Option ℕ) (o : Observer W R) {reading : Reading R}
      → Identified o.session.facts
      → Versioned o.session.facts
      → ends_with r.topic (codes "/log") ≡ false
      → ends_with r.topic (codes "/read") ≡ true
      → parse_reading float decode r.payload ≡ ok reading
      → ((acknowledge e id
            ▸ with_facts e (λ f. apply_device_publish float json decode f r.topic r.payload now)
            ▸ finalize e now)
          o).1
        ≡ running
      → ((acknowledge e id
            ▸ with_facts e (λ f. apply_device_publish float json decode f r.topic r.payload now)
            ▸ finalize e now)
          o).0.session.written
        ≡ true
  unfolding send
  publish_written reliable now r none o known fw other read parsed h =
      reading_written reliable now r o.session known fw other read parsed
  publish_written reliable now r (some id) o known fw other read parsed h =
      elim (Bool-cases (accepts (puback id))) [
        | inl taken ↦ rw taken (reading_written reliable now r o.session known fw other read parsed)
        | inr refused ↦ cc (rw refused at h)
      ]

  -- Without the cloud: a connection that has brought a CONNECT with a user name and a password and a log
  -- line with a firmware, and then a reading, has its output written, on a disk on which every write
  -- succeeds, whatever other packets come before, between and behind, unless it has ended before.
  on_packets-writes :
      IsReliable disk
      → (now : Str) (ps qs : List Packet) (o : Observer W R) (i j : ℕ) (c : Connect) (l r : Publish)
        {user pass fw : Str} {reading : Reading R}
      → get_elem? ps i ≡ some (connect c)
      → c.username ≡ some user
      → c.password ≡ some pass
      → get_elem? ps j ≡ some (publish l)
      → ends_with l.topic (codes "/log") ≡ true
      → firmware_from_log json l.payload ≡ some fw
      → ends_with r.topic (codes "/log") ≡ false
      → ends_with r.topic (codes "/read") ≡ true
      → parse_reading float decode r.payload ≡ ok reading
      → (on_packets e now (ps ++ publish r ∷ qs) o).1 ≡ running
      → (on_packets e now (ps ++ publish r ∷ qs) o).0.session.written ≡ true
  unfolding on_packets on_packet
  on_packets-writes reliable now ps qs o i j c l r hi user pass hj log fw other read parsed h =
      let split = on_packets-append now ps (publish r ∷ qs) o in
      let (begun, rest) =
        continue_running (on_packets e now ps o) (on_packets e now (publish r ∷ qs))
          (rw split at h) in
      let o1 = (on_packets e now ps o).0 in
      let known =
        (Gives-on_packets e Identified Identified-Stable now (connect c)
            (Gives-connect e Identified Identified-Stable now c (λ f. identified e f c user pass))
            ps i hi).at
          o begun in
      let version =
        (Gives-on_packets e Versioned Versioned-Stable now (publish l)
            (Gives-publish e Versioned Versioned-Stable now l (λ f. versioned e f l now log fw)) ps
            j hj).at
          o begun in
      let h1 : (on_packets e now (publish r ∷ qs) o1).1 ≡ running =
        ap (λ (x : Observer W R × Status). x.1) (sym (split ∙ rest)) ∙ h in
      let (read_it, last) =
        continue_running (on_packet e now (publish r) o1) (on_packets e now qs) h1 in
      let wrote =
        publish_written reliable now r r.packet_id o1 known version other read parsed read_it in
      let o2 = (on_packet e now (publish r) o1).0 in
      let end = (on_packets e now qs o2).0.session in
      ap (λ (x : Observer W R × Status). x.0.session.written) (split ∙ rest ∙ last)
      ∙ still_written o2.session.written end.written o2.session.disk end.disk wrote
          ((Forward-on_packets e now qs).at o2).session.frozen
