-- ===== src/Base/Decimal.antt =====
-- `str::parse::<i64>`, `str::parse::<u16>` and `Display` of an integer, in the standard library.
use Prim.Native.Nat.{ℕ, zero, suc, ◌+◌, ◌-◌, ◌*◌, ◌/◌, ◌%◌, ◌^◌, ◌≤◌, ◌<◌}
use mathlib.Core.Path.{◌≡◌, refl}
use mathlib.Core.Logic.{inl, inr}
use mathlib.Core.Bool.{◌&&◌}
use mathlib.Core.List.{[], ◌∷◌, ◌++◌}
use mathlib.Core.Option.{Option, none, some}
use native.Mathlib.Omega.{arith}
use aquilo_offline.Base.Tests.{ltb, leb, ◌==◌, if◌then◌else◌, ◌>>=◌, Bool-cases}
use aquilo_offline.Base.Int.{ℤ, pos, negsuc, IsI64}
use aquilo_offline.Base.Text.{Str}

unfoldable pub digits_loop : ℕ → Str → Option ℕ
digits_loop acc [] = some acc
digits_loop acc (c ∷ cs) =
    let rest = digits_loop (acc * 10 + (c - 48)) cs in if leb 48 c && leb c 57 then rest else none

unfoldable pub parse_digits : Str → Option ℕ
unfolding digits_loop
parse_digits [] = none
parse_digits (c ∷ cs) = digits_loop 0 (c ∷ cs)

-- -n, for n at most 2 ^ 63.
abbrev negate : ℕ → ℤ
negate zero = pos 0
negate (suc n) = negsuc n

-- An `i64` has an optional sign and one digit at least, and is refused out of its range.
unfoldable pub parse_i64 : Str → Option ℤ
unfolding parse_digits
parse_i64 [] = none
parse_i64 (c ∷ cs) =
    if c == b'-'
    then parse_digits cs >>= (λ n. if leb n (2 ^ 63) then some (negate n) else none)
    else (parse_digits (if c == b'+' then cs else c ∷ cs) >>= λ n.
        if ltb n (2 ^ 63) then some (pos n) else none)

unfoldable pub parse_u16 : Str → Option ℕ
unfolding parse_digits
parse_u16 [] = none
parse_u16 (c ∷ cs) =
    parse_digits (if c == b'+' then cs else c ∷ cs) >>= λ n. if ltb n 65536 then some n else none

-- The digits of `n`, on fuel above `n`.
unfoldable pub show_digits : ℕ → ℕ → Str
show_digits zero n = []
show_digits (suc fuel) n =
    let front = show_digits fuel (n / 10) in
    if ltb n 10 then (48 + n) ∷ [] else front ++ (48 + n % 10) ∷ []

unfoldable pub show_ℕ : ℕ → Str
unfolding show_digits
show_ℕ n = show_digits (suc n) n

unfoldable pub show_i64 : ℤ → Str
unfolding show_ℕ
show_i64 (pos n) = show_ℕ n
show_i64 (negsuc n) = b'-' ∷ show_ℕ (suc n)

digits_loop-append :
    (xs ys : Str) (acc : ℕ)
    → digits_loop acc (xs ++ ys) ≡ (digits_loop acc xs >>= λ n. digits_loop n ys)
unfolding digits_loop
digits_loop-append [] ys acc = refl
digits_loop-append (x ∷ xs) ys acc = ground (arith, digits_loop-append xs ys (acc * 10 + (x - 48)))

digits_loop-show_digits : (fuel n : ℕ) → n < fuel → digits_loop 0 (show_digits fuel n) ≡ some n
unfolding show_digits
digits_loop-show_digits zero n h = absurd (omega arith)
digits_loop-show_digits (suc fuel) n h = ground (
  arith,
  digits_loop-append (show_digits fuel (n / 10)) ((48 + n % 10) ∷ []) 0,
  digits_loop-show_digits fuel (n / 10),
  last_digit 0 n,
  last_digit (n / 10) (n % 10),
)
  where
    last_digit : (acc d : ℕ) → d < 10 → digits_loop acc ((48 + d) ∷ []) ≡ some (acc * 10 + d)
    last_digit acc d h = unfold digits_loop in ground arith

-- A digit begins what is shown, so that no sign is read there.
abbrev BeginsWithDigit : Str → Type 0
BeginsWithDigit [] = ⊥
BeginsWithDigit (c ∷ cs) = (48 ≤ c) × (c ≤ 57)

begin_append : (xs ys : Str) → BeginsWithDigit xs → BeginsWithDigit (xs ++ ys)
begin_append [] ys h = absurd h
begin_append (x ∷ xs) ys h = h

show_digits_begin : (fuel n : ℕ) → n < fuel → BeginsWithDigit (show_digits fuel n)
unfolding show_digits
show_digits_begin zero n h = absurd (omega arith)
show_digits_begin (suc fuel) n h = elim (Bool-cases (ltb n 10)) [
  | inl small ↦ rw small (ground arith)
  | inr large ↦
      rw large (
        begin_append (show_digits fuel (n / 10)) _ (show_digits_begin fuel (n / 10) (ground arith)))
]

parse_i64_unsigned :
    (s : Str) (n : ℕ)
    → BeginsWithDigit s
    → digits_loop 0 s ≡ some n
    → n < 2 ^ 63
    → parse_i64 s ≡ some (pos n)
unfolding parse_i64
parse_i64_unsigned [] n b e h = absurd b
parse_i64_unsigned (c ∷ cs) n b e h = ground arith

parse_digits_lem : (s : Str) → BeginsWithDigit s → parse_digits s ≡ digits_loop 0 s
unfolding parse_digits
parse_digits_lem [] b = absurd b
parse_digits_lem (c ∷ cs) b = refl

-- What is shown of an `i64` is parsed to it again.
pub parse_i64-show_i64 : (z : ℤ) → IsI64 z → parse_i64 (show_i64 z) ≡ some z
unfolding parse_i64 show_i64
parse_i64-show_i64 (pos n) h =
    parse_i64_unsigned (show_digits (suc n) n) n (show_digits_begin (suc n) n (omega arith))
      (digits_loop-show_digits (suc n) n (omega arith)) h.0
parse_i64-show_i64 (negsuc n) h = ground (
  arith,
  parse_digits_lem (show_digits (suc (suc n)) (suc n))
      (show_digits_begin (suc (suc n)) (suc n) (omega arith)),
  digits_loop-show_digits (suc (suc n)) (suc n),
)

parse_u16_unsigned :
    (s : Str) (n : ℕ)
    → BeginsWithDigit s
    → digits_loop 0 s ≡ some n
    → n < 65536
    → parse_u16 s ≡ some n
unfolding parse_u16
parse_u16_unsigned [] n b e h = absurd b
parse_u16_unsigned (c ∷ cs) n b e h = ground arith

-- So is a port.
pub parse_u16-show_ℕ : (n : ℕ) → n < 65536 → parse_u16 (show_ℕ n) ≡ some n
unfolding show_ℕ
parse_u16-show_ℕ n h =
    parse_u16_unsigned (show_digits (suc n) n) n (show_digits_begin (suc n) n (omega arith))
      (digits_loop-show_digits (suc n) n (omega arith)) h
