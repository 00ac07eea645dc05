-- ===== src/Server/Versions.antt =====
-- The two readers of the firmware in a `/log` line, that of the serve loop and that of onboarding.
use aquilo_offline.Base.{
  from_utf8, sym, bytes_eq_refl, bytes_eq-false, ◌≡◌, refl, arith, true, false, none, some, List,
  [], ◌∷◌, Bytes, Str, contains, length, ltb, inl, inr, ◌++◌, All, ◌<◌, not, ◌&&◌, Bool-cases,
}
use aquilo_offline.Base.White.{trim, split_whitespace}
use aquilo_offline.Base.Json.{Json}
use aquilo_offline.Server.Firmware.{
  find_version, looks_like_version, json_firmware, parse_firmware, firmware_from_log,
}
use aquilo_offline.Server.Handler.{done, World, Env, topics, handle_publish}
use aquilo_offline.Server.Routing.{new_topics-AreDistinct}

-- A token that onboarding takes for a version: it has a dot and no colon, as a MAC has, and fewer than
-- 64 bytes.
pub record IsVersion (tok : Str) : Type 0 where
  pub dotted : contains tok b'.' ≡ true
  pub no_mac : contains tok b':' ≡ false
  pub short : length tok < 64

-- The first such token.
IsVersion-of :
    (t : Str) → (contains t b'.' && not (contains t b':') && ltb (length t) 64) ≡ true → IsVersion t
IsVersion-of t e = record { dotted = ground arith; no_mac = ground arith; short = ground arith }

find_version-first :
    (before : List Str) (tok : Str) (behind : List Str)
    → All (λ t. ¬ IsVersion t) before
    → IsVersion tok
    → find_version (before ++ tok ∷ behind) ≡ some tok
unfolding find_version
find_version-first [] tok behind h v = ground (arith, v.dotted, v.no_mac, v.short)
find_version-first (t ∷ before) tok behind h v =
    let later = find_version-first before tok behind h.1 v in
    elim (Bool-cases (contains t b'.' && not (contains t b':') && ltb (length t) 64)) [
      | inl e ↦ absurd (h.0 (IsVersion-of t e))
      | inr e ↦ rw (e, find_version) later
    ]

looks_like_version-spaced :
    (text : Str) → contains text b' ' ≡ true → looks_like_version text ≡ false
unfolding looks_like_version
looks_like_version-spaced text hs = ground (arith, hs)

module _ {V R : Type 0} (J : Json V R) where
  -- Where a log line is JSON with a text under one of the keys, the serve loop and onboarding read the
  -- same firmware from it.
  firmware_agree :
      (payload : Bytes) (fw : Str)
      → json_firmware J payload ≡ some fw
      → (parse_firmware J payload ≡ some fw) × (firmware_from_log J payload ≡ some fw)
  unfolding parse_firmware firmware_from_log
  firmware_agree payload fw e = (rw e refl, rw e refl)

  -- The serve loop takes no text with a space for a firmware.
  parse_firmware-spaced :
      (payload : Bytes) (text : Str)
      → json_firmware J payload ≡ none
      → from_utf8 payload ≡ some text
      → contains (trim text) b' ' ≡ true
      → parse_firmware J payload ≡ none
  unfolding parse_firmware
  parse_firmware-spaced payload text h hu hs =
      rw (h, hu, looks_like_version-spaced (trim text) hs) refl

module _ {S V R : Type 0} (e : Env S V R) where
  open e use {json, cfg}

  -- A log line in UTF-8 with none of the firmware keys, with a space in its trimmed text and a version
  -- among its tokens, which are what white space separates: the serve loop publishes nothing and
  -- changes nothing, where onboarding takes the first of its versions for the firmware.
  pub spaced-unechoed :
      (payload : Bytes) (text now : Str) (before : List Str) (tok : Str) (behind : List Str)
      (w : World S R)
      → json_firmware json payload ≡ none
      → from_utf8 payload ≡ some text
      → contains (trim text) b' ' ≡ true
      → split_whitespace text ≡ before ++ tok ∷ behind
      → All (λ t. ¬ IsVersion t) before
      → IsVersion tok
      → (handle_publish e (topics e).log payload now w ≡ (w, done))
        × (firmware_from_log json payload ≡ some tok)
  unfolding handle_publish firmware_from_log
  spaced-unechoed payload text now before tok behind w h hu hs split first version =
      let distinct = new_topics-AreDistinct cfg.receiver_id in
      let unread = bytes_eq-false (λ same. distinct.read_log (sym same)) in
      (
        rw (unread, bytes_eq_refl (topics e).log, parse_firmware-spaced json payload text h hu hs)
            refl,
        rw (h, hu, split) (find_version-first before tok behind first version),
      )
