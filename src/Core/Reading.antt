-- ===== src/Core/Reading.antt =====
-- aquilo-core/src/reading.rs. `decode` is serde_json's `from_slice::<ReadPayload>`.
use aquilo_offline.Base.{
  ℕ, ℤ, pos, F64, tenths, Option, none, some, List, [], ◌∷◌, Bytes, Str, length, ◌==◌,
  if◌then◌else◌, or_else,
}
use aquilo_offline.Base.Decimal.{parse_i64}

pub record RawFrame : Type 0 where
  pub version : Str
  pub sensor : Str
  pub level_mm : ℤ
  pub battery_mv : ℤ
  pub amp : ℤ
  pub temp : ℤ
  pub read_no : ℤ
  pub last_sent : ℤ
  pub rest : List ℤ

pub record Reading (R : Type 0) : Type 0 where
  pub sensor : Str
  pub version : Option Str
  pub level_cm : R
  pub battery_mv : ℤ
  pub read_no : Option ℤ
  pub last_sent : Option ℤ
  pub amp1 : Option ℤ
  pub temp : Option ℤ
  pub raw : Option RawFrame

pub record ReadPayload : Type 0 where
  pub sensor : Option Str
  pub version : Option Str
  pub read1 : Option ℤ
  pub battery : Option Str
  pub read_no : Option ℤ
  pub last_sent : Option ℤ
  pub amp1 : Option ℤ
  pub temp : Option ℤ
  pub raw : Option Str

-- The messages of the `anyhow` errors.
pub data ParseError : Type 0 where
  invalid_json no_level battery_not_integer no_battery no_sensor trailing_not_integer : ParseError
  too_few_fields : ℕ → ParseError
  field_not_integer : ℕ → ParseError

pub data Parsed {ℓ} (A : Type ℓ) : Type ℓ where
  ok : A → Parsed A
  err : ParseError → Parsed A

infixl 5 ◌>>=◌
abbrev pub ◌>>=◌ {ℓ κ} : {A : Type ℓ} {B : Type κ} → Parsed A → (A → Parsed B) → Parsed B
ok a >>= f = f a
err e >>= f = err e

abbrev pub ok_or {ℓ} : {A : Type ℓ} → Option A → ParseError → Parsed A
ok_or none e = err e
ok_or (some a) e = ok a

-- `split(sep)`: the part that `c` begins is the first of `parts`.
abbrev pub extend_first : ℕ → List Str → List Str
extend_first c [] = (c ∷ []) ∷ []
extend_first c (p ∷ ps) = (c ∷ p) ∷ ps

unfoldable pub split : ℕ → Str → List Str
split sep [] = [] ∷ []
split sep (c ∷ s) = let parts = split sep s in if c == sep then [] ∷ parts else extend_first c parts

-- `filter(|s| !s.is_empty())`
unfoldable pub non_empty : List Str → List Str
non_empty [] = []
non_empty ([] ∷ ps) = non_empty ps
non_empty ((c ∷ p) ∷ ps) = (c ∷ p) ∷ non_empty ps

-- The closure `num` at a part that is there.
unfoldable pub num : ℕ → Str → Parsed ℤ
num idx part = ok_or (parse_i64 part) (field_not_integer idx)

-- The trailing fields, collected up to the first that is no integer.
unfoldable pub all_integers : List Str → Parsed (List ℤ)
all_integers [] = ok []
all_integers (p ∷ ps) = do
  n ← ok_or (parse_i64 p) trailing_not_integer
  ns ← all_integers ps
  ok (n ∷ ns)

-- The guard `parts.len() < 8` is the last clause.
unfoldable pub frame_of_parts : List Str → Parsed RawFrame
unfolding num
frame_of_parts (p0 ∷ p1 ∷ p2 ∷ p3 ∷ p4 ∷ p5 ∷ p6 ∷ p7 ∷ trailing) = do
  level_mm ← num 2 p2
  battery_mv ← num 3 p3
  amp ← num 4 p4
  temp ← num 5 p5
  read_no ← num 6 p6
  last_sent ← num 7 p7
  rest ← all_integers trailing
  ok (record {
    version = p0;
    sensor = p1;
    level_mm = level_mm;
    battery_mv = battery_mv;
    amp = amp;
    temp = temp;
    read_no = read_no;
    last_sent = last_sent;
    rest = rest;
  })
frame_of_parts parts = err (too_few_fields (length parts))

-- `RawFrame::parse`
unfoldable pub parse_frame : Str → Parsed RawFrame
unfolding frame_of_parts
parse_frame raw = frame_of_parts (non_empty (split b'_' raw))

-- `raw.map(RawFrame::parse).transpose()`
unfoldable pub parse_raw : Option Str → Parsed (Option RawFrame)
parse_raw none = ok none
parse_raw (some s) = do frame ← parse_frame s; ok (some frame)

module _ {R : Type 0} (F : F64 R) where
  open F use {of_i64, div}

  -- The level, from `read1` first.
  unfoldable pub level_of : Option ℤ → Option RawFrame → Parsed R
  level_of (some read1) raw = ok (div (of_i64 read1) (of_i64 (pos 100)))
  level_of none (some frame) = ok (tenths F frame.level_mm)
  level_of none none = err no_level

  -- The battery voltage, from the JSON field first.
  unfoldable pub battery_of : Option Str → Option RawFrame → Parsed ℤ
  battery_of (some b) raw = ok_or (parse_i64 b) battery_not_integer
  battery_of none (some frame) = ok frame.battery_mv
  battery_of none none = err no_battery

  -- `x.or_else(|| raw.map(f))`
  abbrev pub or_raw {ℓ} : {A : Type ℓ} → Option A → (RawFrame → A) → Option RawFrame → Option A
  or_raw x f none = x
  or_raw x f (some frame) = or_else x (some (f frame))

  unfoldable pub reading_of : ReadPayload → Parsed (Reading R)
  unfolding level_of battery_of
  reading_of p = do
    raw ← parse_raw p.raw
    level_cm ← level_of p.read1 raw
    battery_mv ← battery_of p.battery raw
    sensor ← ok_or (or_raw p.sensor (λ f. f.sensor) raw) no_sensor
    ok (record {
      sensor = sensor;
      version = or_raw p.version (λ f. f.version) raw;
      level_cm = level_cm;
      battery_mv = battery_mv;
      read_no = or_raw p.read_no (λ f. f.read_no) raw;
      last_sent = or_raw p.last_sent (λ f. f.last_sent) raw;
      amp1 = or_raw p.amp1 (λ f. f.amp) raw;
      temp = or_raw p.temp (λ f. f.temp) raw;
      raw = raw;
    })

  -- `Reading::parse`
  unfoldable pub parse_reading : (Bytes → Option ReadPayload) → Bytes → Parsed (Reading R)
  unfolding reading_of
  parse_reading decode payload = do p ← ok_or (decode payload) invalid_json; reading_of p
