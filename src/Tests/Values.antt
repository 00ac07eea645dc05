-- ===== src/Tests/Values.antt =====
-- JSON values for the tests of the crates, in place of those of serde_json: texts, whole numbers, numbers
-- in hundredths, arrays and objects.
use aquilo_offline.Base.{
  ℕ, zero, suc, ℤ, Option, none, some, List, [], ◌∷◌, Bytes, Str, bytes_eq, if◌then◌else◌,
  unwrap_or,
}
use aquilo_offline.Base.Json.{Json}
use aquilo_offline.Examples.Toy.{times}

pub data Value : Type 0 where
  null end_array end_object : Value
  text : Str → Value
  number : ℤ → Value
  fraction : ℤ → Value
  item : Value → Value → Value
  entry : Str → Value → Value → Value

abbrev pub array_of : List Value → Value
array_of [] = end_array
array_of (v ∷ vs) = item v (array_of vs)

abbrev pub object_of : List (Str × Value) → Value
object_of [] = end_object
object_of ((key, v) ∷ rest) = entry key v (object_of rest)

abbrev pub get : Value → Str → Option Value
get (entry k v rest) key = let later = get rest key in if bytes_eq k key then some v else later
get _ key = none

abbrev pub at : Value → ℕ → Option Value
at (item v rest) zero = some v
at (item v rest) (suc i) = at rest i
at _ i = none

abbrev as_str : Value → Option Str
as_str (text s) = some s
as_str _ = none

abbrev as_i64 : Value → Option ℤ
as_i64 (number n) = some n
as_i64 _ = none

abbrev as_f64 : Value → Option ℤ
as_f64 (fraction x) = some x
as_f64 (number n) = some (times n 100)
as_f64 _ = none

-- With what `from_slice` gives.
abbrev pub values : (Bytes → Option Value) → Json Value ℤ
values from_slice = record {
  from_slice = from_slice;
  to_vec = λ v. none;
  get = get;
  at = at;
  field = λ v key. unwrap_or (get v key) null;
  as_str = as_str;
  as_i64 = as_i64;
  as_f64 = as_f64;
  object = object_of;
  array = array_of;
  string = text;
  int = number;
  float = fraction;
}

-- A decoder that knows these texts.
abbrev pub decoder {ℓ} : {A : Type ℓ} → List (Bytes × A) → Bytes → Option A
decoder [] bytes = none
decoder ((known, v) ∷ rest) bytes =
    let later = decoder rest bytes in if bytes_eq known bytes then some v else later
