-- ===== src/Base.antt =====
-- The names that the other modules share: the libraries', passed on, and those of the children
-- (tests on numbers, lists, signed integers, bytes and text, floating point).
mod Tests
mod Lists
mod Int
mod Text
mod Utf8
mod Float
pub mod Bits
pub mod Decimal
pub mod Ieee
pub mod Json
pub mod White
pub use Tests.*
pub use Lists.*
pub use Int.*
unfoldable pub use Text.{bytes_eq, starts_with, ends_with, contains, strip_prefix}
pub use Text.{Bytes, Str, codes, IsByte, AreBytes, bytes_eq_iff, bytes_eq_refl, bytes_eq-false}
unfoldable pub use Utf8.{from_utf8_lossy, from_utf8, scan, scan_byte}
pub use Utf8.{IsText, from_utf8_lossy-IsText}
pub use Float.*
pub use Prim.Native.Nat.{ℕ, zero, suc, ◌+◌, ◌-◌, ◌*◌, ◌/◌, ◌%◌, ◌^◌, ◌≤◌, ◌<◌, bit_and, bit_or}
pub use Prim.Native.Nat.{min, max}
pub use Prim.Native.String.{String}
pub use mathlib.Core.Path.{◌≡◌, refl, sym, ap, ◌∙◌}
pub use mathlib.Core.Logic.{◌≢◌, ◌↔◌, ◌⊎◌, inl, inr}
pub use mathlib.Core.Bool.{Bool, true, false, not, ◌&&◌, ◌||◌}
pub use mathlib.Core.Option.{Option, none, some}
pub use mathlib.Core.List.{List, [], ◌∷◌, ◌++◌, append-nil, append_assoc}
pub use native.Mathlib.Omega.{arith}
