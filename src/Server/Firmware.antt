-- ===== src/Server/Firmware.antt =====
-- `parse_firmware` of aquilo-server/src/server.rs, and `firmware_from_log` of onboard.rs.
use aquilo_offline.Base.{
  Bool, not, ◌&&◌, ◌||◌, Option, none, some, List, [], ◌∷◌, Bytes, Str, codes, ltb, length,
  contains, from_utf8, if◌then◌else◌, ◌>>=◌,
}
use aquilo_offline.Base.Json.{Json}
use aquilo_offline.Base.White.{trim, split_whitespace}

unfoldable pub firmware_keys : List Str
firmware_keys = codes "v" ∷ codes "version" ∷ codes "fw" ∷ codes "ver" ∷ []

-- `Option::or`, as an early return from the loop over the keys.
abbrev first_some : Option Str → Option Str → Option Str
first_some none rest = rest
first_some (some s) rest = some s

abbrev is_empty : Str → Bool
is_empty [] = Bool.true
is_empty (c ∷ s) = Bool.false

unfoldable pub looks_like_version : Str → Bool
unfolding contains
looks_like_version text =
    not (is_empty text)
    && ltb (length text) 64
    && contains text b'.'
    && not (contains text b' ' || contains text b'{' || contains text b',')

-- `find` of the first token with a dot, no colon and fewer than 64 bytes.
unfoldable pub find_version : List Str → Option Str
unfolding contains
find_version [] = none
find_version (tok ∷ toks) =
    let rest = find_version toks in
    if contains tok b'.' && not (contains tok b':') && ltb (length tok) 64 then some tok else rest

module _ {V R : Type 0} (J : Json V R) where
  open J use {from_slice, get, as_str}

  -- The first of the keys that the object has with a string.
  unfoldable pub find_key : V → List Str → Option Str
  find_key value [] = none
  find_key value (key ∷ keys) = first_some (get value key >>= as_str) (find_key value keys)

  unfoldable pub json_firmware : Bytes → Option Str
  unfolding find_key firmware_keys
  json_firmware payload = do value ← from_slice payload; find_key value firmware_keys

  unfoldable pub parse_firmware : Bytes → Option Str
  unfolding json_firmware looks_like_version
  parse_firmware payload = first_some (json_firmware payload) (
      from_utf8 payload >>= λ raw.
      let text = trim raw in if looks_like_version text then some text else none)

  unfoldable pub firmware_from_log : Bytes → Option Str
  unfolding json_firmware find_version
  firmware_from_log payload =
      first_some (json_firmware payload)
        (from_utf8 payload >>= λ text. find_version (split_whitespace text))
