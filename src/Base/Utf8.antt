-- ===== src/Base/Utf8.antt =====
-- `String::from_utf8_lossy` and `str::from_utf8` of the standard library, as one automaton over
-- the bytes: U+FFFD (EF BF BD) stands for each maximal ill-formed part.
use Prim.Native.Nat.{ℕ, zero, suc}
use mathlib.Core.Path.{◌≡◌, refl, sym, ap, ◌∙◌}
use mathlib.Core.Bool.{Bool, true, false, ◌&&◌}
use mathlib.Core.List.{[], ◌∷◌, ◌++◌, append-nil, append_assoc}
use mathlib.Core.Logic.{inl, inr}
use mathlib.Core.Option.{Option, none, some}
use native.Mathlib.Omega.{arith}
use aquilo_offline.Base.Tests.{ltb, leb, ◌==◌, if◌then◌else◌, Bool-cases}
use aquilo_offline.Base.Text.{Bytes, Str}

-- Between characters, or inside one: its bytes so far, the range of the next byte, and how many
-- continuation bytes follow that one.
pub data Scan : Type 0 where
  start : Scan
  inside : Bytes → ℕ → ℕ → ℕ → Scan

pub record Step : Type 0 where
  pub out : Bytes
  pub ill_formed : Bool
  pub next : Scan

abbrev replacement : Bytes
replacement = 0xEF ∷ 0xBF ∷ 0xBD ∷ []

abbrev within : ℕ → ℕ → ℕ → Bool
within lo hi b = leb lo b && leb b hi

abbrev lead : ℕ → ℕ → ℕ → ℕ → Step
lead b lo hi more = record { out = []; ill_formed = false; next = inside (b ∷ []) lo hi more }

-- The first byte of a character.
first_byte : ℕ → Step
first_byte b =
    if ltb b 0x80
    then record { out = b ∷ []; ill_formed = false; next = start }
    else if within 0xC2 0xDF b
    then lead b 0x80 0xBF 0
    else if b == 0xE0
    then lead b 0xA0 0xBF 1
    else if b == 0xED
    then lead b 0x80 0x9F 1
    else if within 0xE1 0xEF b
    then lead b 0x80 0xBF 1
    else if b == 0xF0
    then lead b 0x90 0xBF 2
    else if within 0xF1 0xF3 b
    then lead b 0x80 0xBF 2
    else if b == 0xF4
    then lead b 0x80 0x8F 2
    else record { out = replacement; ill_formed = true; next = start }

-- A byte out of range ends the ill-formed part and is read again as a first byte.
unfoldable pub scan_byte : Scan → ℕ → Step
unfolding first_byte
scan_byte start b = first_byte b
scan_byte (inside seen lo hi zero) b =
    if within lo hi b
    then record { out = seen ++ b ∷ []; ill_formed = false; next = start }
    else record {
      out = replacement ++ (first_byte b).out;
      ill_formed = true;
      next = (first_byte b).next;
    }
scan_byte (inside seen lo hi (suc more)) b =
    if within lo hi b
    then record { out = []; ill_formed = false; next = inside (seen ++ b ∷ []) 0x80 0xBF more }
    else record {
      out = replacement ++ (first_byte b).out;
      ill_formed = true;
      next = (first_byte b).next;
    }

unfoldable pub scan : Scan → Bytes → Str
unfolding scan_byte
scan start [] = []
scan (inside seen lo hi more) [] = replacement
scan s (b ∷ bs) = (scan_byte s b).out ++ scan (scan_byte s b).next bs

unfoldable pub from_utf8_lossy : Bytes → Str
unfolding scan
from_utf8_lossy = scan start

-- Whether the scan meets no ill-formed part.
well_formed : Scan → Bytes → Bool
unfolding scan_byte
well_formed start [] = true
well_formed (inside seen lo hi more) [] = false
well_formed s (b ∷ bs) =
    let rest = well_formed (scan_byte s b).next bs in
    if (scan_byte s b).ill_formed then false else rest

unfoldable pub from_utf8 : Bytes → Option Str
unfolding well_formed
from_utf8 bs = if well_formed start bs then some bs else none

-- The bytes of a `String`.
abbrev pub IsText : Bytes → Type 0
IsText bs = from_utf8 bs ≡ some bs

-- A well-formed text is read back byte for byte.
abbrev pending : Scan → Bytes
pending start = []
pending (inside seen lo hi more) = seen

scan_byte-pending :
    (s : Scan) (b : ℕ)
    → (scan_byte s b).ill_formed ≡ false
    → (scan_byte s b).out ++ pending (scan_byte s b).next ≡ pending s ++ b ∷ []
unfolding scan_byte
scan_byte-pending start b h = ground arith
scan_byte-pending (inside seen lo hi zero) b h = ground (arith, append-nil (seen ++ b ∷ []))
scan_byte-pending (inside seen lo hi (suc more)) b h = ground arith

abbrev Reads : Scan → Bytes → Type 0
Reads s bs = well_formed s bs ≡ true → scan s bs ≡ pending s ++ bs

step_then :
    (s : Scan) (b : ℕ) (bs : Bytes)
    → (if (scan_byte s b).ill_formed then false else well_formed (scan_byte s b).next bs) ≡ true
    → Reads (scan_byte s b).next bs
    → (scan_byte s b).out ++ scan (scan_byte s b).next bs ≡ pending s ++ b ∷ bs
step_then s b bs h ih = elim (Bool-cases (scan_byte s b).ill_formed) [
  | inl bad ↦ cc (rw bad at h)
  | inr good ↦ rw (ih (rw good at h)) (
      sym (append_assoc _ _ bs)
      ∙ ap (λ t. t ++ bs) (scan_byte-pending s b good)
      ∙ append_assoc (pending s) (b ∷ []) bs)
]

scan-well_formed : (s : Scan) (bs : Bytes) → well_formed s bs ≡ true → scan s bs ≡ pending s ++ bs
unfolding scan well_formed
scan-well_formed start [] h = refl
scan-well_formed (inside seen lo hi more) [] h = cc
scan-well_formed start (b ∷ bs) h =
    step_then start b bs h (scan-well_formed (scan_byte start b).next bs)
scan-well_formed (inside seen lo hi more) (b ∷ bs) h =
    let s = inside seen lo hi more in step_then s b bs h (scan-well_formed (scan_byte s b).next bs)

pub from_utf8_lossy-IsText : (bs : Bytes) → IsText bs → from_utf8_lossy bs ≡ bs
unfolding from_utf8_lossy from_utf8
from_utf8_lossy-IsText bs h = scan-well_formed start bs (ground arith)
