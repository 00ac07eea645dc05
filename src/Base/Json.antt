-- ===== src/Base/Json.antt =====
-- serde_json, as the program calls it: a type `V` of JSON values and the operations on it. What
-- the library decodes into a struct of the program is a field of that struct's type elsewhere.
use mathlib.Core.List.{List}
use mathlib.Core.Option.{Option}
use Prim.Native.Nat.{ℕ}
use aquilo_offline.Base.Int.{ℤ}
use aquilo_offline.Base.Text.{Bytes, Str}

pub record Json (V R : Type 0) : Type 0 where
  -- `from_slice::<Value>`, and `to_vec`; `none` is an error
  pub from_slice : Bytes → Option V
  pub to_vec : V → Option Bytes
  -- `v.get(key)`, `v.get(i)`, and `v[key]`, which is null where there is no such key
  pub get : V → Str → Option V
  pub at : V → ℕ → Option V
  pub field : V → Str → V
  pub as_str : V → Option Str
  pub as_i64 : V → Option ℤ
  pub as_f64 : V → Option R
  -- what `json!` builds
  pub object : List (Str × V) → V
  pub array : List V → V
  pub string : Str → V
  pub int : ℤ → V
  pub float : R → V
