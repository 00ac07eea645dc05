-- ===== src/Core/Telemetry.antt =====
-- The raw telemetry string of reading.rs: what the device writes and what `RawFrame::parse` reads.
use aquilo_offline.Base.{
  ℕ, ℤ, pos, negsuc, zero, suc, ◌+◌, ◌/◌, ◌%◌, ◌<◌, ◌≡◌, refl, arith, false, List, [], ◌∷◌, ◌++◌,
  Str, ◌==◌, length, All, IsI64, All-append, length-append, Bool-cases, inl, inr, ltb,
}
use aquilo_offline.Base.Decimal.{show_digits, show_ℕ, show_i64, parse_i64-show_i64}
use aquilo_offline.Core.Reading.{
  RawFrame, ok, split, non_empty, num, all_integers, frame_of_parts, parse_frame,
}

-- The telemetry string has an underscore before each field.
abbrev pub underscored : List Str → Str
underscored [] = []
underscored (p ∷ ps) = b'_' ∷ (p ++ underscored ps)

abbrev pub show_all : List ℤ → List Str
show_all [] = []
show_all (z ∷ zs) = show_i64 z ∷ show_all zs

abbrev pub frame_parts : RawFrame → List Str
frame_parts f =
    f.version
    ∷ f.sensor
    ∷ show_i64 f.level_mm
    ∷ show_i64 f.battery_mv
    ∷ show_i64 f.amp
    ∷ show_i64 f.temp
    ∷ show_i64 f.read_no
    ∷ show_i64 f.last_sent
    ∷ show_all f.rest

abbrev pub NotUnderscore : ℕ → Type 0
NotUnderscore c = (c == b'_') ≡ false

-- A field is not empty and has no underscore in it.
abbrev pub IsPart : Str → Type 0
IsPart s = (0 < length s) × All NotUnderscore s

pub record IsFrame (f : RawFrame) : Type 0 where
  pub version : IsPart f.version
  pub sensor : IsPart f.sensor
  pub level_mm : IsI64 f.level_mm
  pub battery_mv : IsI64 f.battery_mv
  pub amp : IsI64 f.amp
  pub temp : IsI64 f.temp
  pub read_no : IsI64 f.read_no
  pub last_sent : IsI64 f.last_sent
  pub rest : All IsI64 f.rest

split-underscored :
    (p : Str) (ps : List Str)
    → All NotUnderscore p
    → All IsPart ps
    → split b'_' (p ++ underscored ps) ≡ p ∷ ps
unfolding split
split-underscored [] [] h k = refl
split-underscored [] (q ∷ qs) h k = rw (split-underscored q qs k.0.1 k.1) refl
split-underscored (c ∷ p) ps h k = rw (h.0, split-underscored p ps h.1 k) refl

non_empty-parts : (ps : List Str) → All IsPart ps → non_empty ps ≡ ps
unfolding non_empty
non_empty-parts [] h = refl
non_empty-parts ([] ∷ ps) h = absurd (omega (arith, h.0.0))
non_empty-parts ((c ∷ p) ∷ ps) h = rw (non_empty-parts ps h.1) refl

show_digits-IsPart : (fuel n : ℕ) → n < fuel → IsPart (show_digits fuel n)
unfolding show_digits
show_digits-IsPart zero n h = absurd (omega arith)
show_digits-IsPart (suc fuel) n h = elim (Bool-cases (ltb n 10)) [
  | inl small ↦ rw small (omega arith, (ground arith, tt))
  | inr large ↦
      let front = show_digits fuel (n / 10) in
      rw large (
        omega (arith, length-append front ((48 + n % 10) ∷ [])),
        All-append NotUnderscore front ((48 + n % 10) ∷ [])
            (show_digits-IsPart fuel (n / 10) (ground arith)).1 (ground arith, tt),
      )
]

show_i64-IsPart : (z : ℤ) → IsPart (show_i64 z)
unfolding show_i64 show_ℕ
show_i64-IsPart (pos n) = show_digits-IsPart (suc n) n (omega arith)
show_i64-IsPart (negsuc n) =
    (omega arith, (refl, (show_digits-IsPart (suc (suc n)) (suc n) (omega arith)).1))

show_all-IsPart : (zs : List ℤ) → All IsPart (show_all zs)
show_all-IsPart [] = tt
show_all-IsPart (z ∷ zs) = (show_i64-IsPart z, show_all-IsPart zs)

all_integers-show_all : (zs : List ℤ) → All IsI64 zs → all_integers (show_all zs) ≡ ok zs
unfolding all_integers
all_integers-show_all [] h = refl
all_integers-show_all (z ∷ zs) h = rw (parse_i64-show_i64 z h.0, all_integers-show_all zs h.1) refl

frame_parts-IsPart : (f : RawFrame) → IsFrame f → All IsPart (frame_parts f)
frame_parts-IsPart f h = (
  h.version,
  (
    h.sensor,
    (
      show_i64-IsPart f.level_mm,
      (
        show_i64-IsPart f.battery_mv,
        (
          show_i64-IsPart f.amp,
          (
            show_i64-IsPart f.temp,
            (show_i64-IsPart f.read_no, (show_i64-IsPart f.last_sent, show_all-IsPart f.rest)),
          ),
        ),
      ),
    ),
  ),
)

-- Every frame whose texts are not empty and have no underscore, with numbers that fit an `i64` and
-- any count of trailing fields, is read back from its telemetry string.
pub parse_frame-underscored :
    (f : RawFrame) → IsFrame f → parse_frame (underscored (frame_parts f)) ≡ ok f
unfolding parse_frame frame_of_parts num non_empty
parse_frame-underscored f h =
    let parts = frame_parts-IsPart f h in
    rw
      (
        split-underscored [] (frame_parts f) tt parts,
        non_empty-parts (frame_parts f) parts,
        parse_i64-show_i64 f.level_mm h.level_mm,
        parse_i64-show_i64 f.battery_mv h.battery_mv,
        parse_i64-show_i64 f.amp h.amp,
        parse_i64-show_i64 f.temp h.temp,
        parse_i64-show_i64 f.read_no h.read_no,
        parse_i64-show_i64 f.last_sent h.last_sent,
        all_integers-show_all f.rest h.rest,
      )
      refl
