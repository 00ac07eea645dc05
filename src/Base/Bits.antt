-- ===== src/Base/Bits.antt =====
-- The masks of the wire format as arithmetic, each a table over the bytes checked by evaluation.
use Prim.Native.Nat.{ℕ, zero, suc, ◌+◌, ◌*◌, ◌/◌, ◌%◌, ◌<◌, bit_and, bit_or}
use mathlib.Core.Path.{◌≡◌, refl}
use mathlib.Core.Bool.{Bool, true, false}
use mathlib.Core.Logic.{inl, inr}
use native.Mathlib.Omega.{arith}
use aquilo_offline.Base.Tests.{◌==◌, ==_iff, Bool-cases, if◌then◌else◌}

-- Whether two functions have the same values below a number.
same_below : (f g : ℕ → ℕ) → ℕ → Bool
same_below f g zero = true
same_below f g (suc top) = if f top == g top then same_below f g top else false

same_below_at : (f g : ℕ → ℕ) (top : ℕ) → same_below f g top ≡ true → (b : ℕ) → b < top → f b ≡ g b
unfolding same_below
same_below_at f g zero table b below = absurd (omega arith)
same_below_at f g (suc top) table b below = elim (Bool-cases (f top == g top)) [
  | inr differ ↦ cc (rw differ at table)
  | inl same ↦ elim (Bool-cases (b == top)) [
    | inl last ↦ let here : b ≡ top = (==_iff b top).0 last in rw here ((==_iff _ _).0 same)
    | inr earlier ↦ same_below_at f g top (rw same at table) b (ground arith)
  ]
]

pub low_seven : (b : ℕ) → b < 256 → bit_and b 0x7f ≡ b % 128
unfolding same_below
low_seven = same_below_at _ _ 256 refl

pub top_bit : (b : ℕ) → b < 256 → bit_and b 0x80 ≡ b / 128 * 128
unfolding same_below
top_bit = same_below_at _ _ 256 refl

pub low_four : (b : ℕ) → b < 256 → bit_and b 0x0f ≡ b % 16
unfolding same_below
low_four = same_below_at _ _ 256 refl

pub set_top_bit : (b : ℕ) → b < 128 → bit_or b 0x80 ≡ b + 128
unfolding same_below
set_top_bit = same_below_at _ _ 128 refl

or_table : same_below (λ w. bit_or (w / 256 * 256) (w % 256)) (λ w. w) 65536 ≡ true
unfolding same_below
or_table = refl

-- The two halves of a `u16` share no bit.
pub join_bytes : (hi lo : ℕ) → hi < 256 → lo < 256 → bit_or (hi * 256) lo ≡ hi * 256 + lo
join_bytes hi lo h l =
    let w = hi * 256 + lo in
    let fits : w < 65536 = omega arith in
    let joined : bit_or (w / 256 * 256) (w % 256) ≡ w =
      same_below_at (λ w. bit_or (w / 256 * 256) (w % 256)) (λ w. w) 65536 or_table w fits in
    let high : w / 256 ≡ hi = omega arith in
    let low : w % 256 ≡ lo = omega arith in rw (high, low) at joined
