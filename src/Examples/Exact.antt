-- ===== src/Examples/Exact.antt =====
-- The numbers of Toy meet the laws of IEEE 754 that the theorems on numbers ask for.
use native.Mathlib.Nat.{
  div-mul-le_self, le-div_iff_mul-le, mul-div_cancel_left, zero-div, mul-le-mul_right,
}
use aquilo_offline.Base.{
  ℕ, ℤ, pos, negsuc, ◌+◌, ◌/◌, ◌<◌, ◌≤◌, ◌-ℤ◌, ◌+ℤ◌, ◌≤ℤ◌, ◌<ℤ◌, ◌≡◌, refl, max_ℤ, arith, F64,
}
use aquilo_offline.Base.Ieee.{IeeeLaws, ◌≼◌, ◌≺◌, ◌≈◌}
use aquilo_offline.Examples.Toy.{hundredths, times, over, signed, magnitude}

≼_intro : (x y : ℤ) → x ≤ℤ y → x ≼ y
≼_intro x y h = ground arith

≼_elim : (x y : ℤ) → x ≼ y → x ≤ℤ y
≼_elim x y h = ground arith

≈_equal : {x y : ℤ} → x ≡ y → x ≈ y
≈_equal {x} {y} e = rw e (≼_intro y y (omega arith), ≼_intro y y (omega arith))

times_mono : (k : ℕ) (x y : ℤ) → x ≤ℤ y → times x k ≤ℤ times y k
times_mono k (pos a) (pos b) h =
    let l = mul-le-mul_right {m = a} {n = b} k (omega arith) in ground arith
times_mono k (pos a) (negsuc b) h = absurd (omega arith)
times_mono k (negsuc a) (pos b) h = ground arith
times_mono k (negsuc a) (negsuc b) h =
    let l = mul-le-mul_right {m = b + 1} {n = a + 1} k (omega arith) in ground arith

quotient_mono : (d a b : ℕ) → 0 < d → a ≤ b → a / d ≤ b / d
quotient_mono d a b h k =
    (le-div_iff_mul-le {x = a / d} {y = b} h).1 (let l = div-mul-le_self a d in omega arith)

over_mono : (d : ℕ) (x y : ℤ) → 0 < d → x ≤ℤ y → over x d ≤ℤ over y d
over_mono d (pos a) (pos b) p h = let l = quotient_mono d a b p (omega arith) in ground arith
over_mono d (pos a) (negsuc b) p h = absurd (omega arith)
over_mono d (negsuc a) (pos b) p h = ground arith
over_mono d (negsuc a) (negsuc b) p h =
    let l = quotient_mono d (b + 1) (a + 1) p (omega arith) in ground arith

-- A product with a number that is not negative, and a quotient by a positive one.
mul_mono_lem : (c x y : ℤ) → pos 0 ≤ℤ c → x ≤ℤ y → F64.mul hundredths x c ≼ F64.mul hundredths y c
mul_mono_lem (pos n) x y h k =
    let k' = times_mono (magnitude (pos n)) x y k in
    ≼_intro (F64.mul hundredths x (pos n)) (F64.mul hundredths y (pos n))
      (over_mono 100 (times x (magnitude (pos n))) (times y (magnitude (pos n))) (omega arith) k')
mul_mono_lem (negsuc n) x y h k = absurd (omega arith)

div_mono_lem : (d x y : ℤ) → pos 0 <ℤ d → x ≤ℤ y → F64.div hundredths x d ≼ F64.div hundredths y d
div_mono_lem (pos n) x y h k =
    ≼_intro (F64.div hundredths x (pos n)) (F64.div hundredths y (pos n)) (
      over_mono (magnitude (pos n)) (times x 100) (times y 100) (omega arith)
        (times_mono 100 x y k))
div_mono_lem (negsuc n) x y h k = absurd (omega arith)

of_positive : (a : ℤ) → pos 0 <ℤ a → F64.of_i64 hundredths (pos 0) ≺ F64.of_i64 hundredths a
of_positive (pos n) h = ground arith
of_positive (negsuc n) h = absurd (omega arith)

less_sub : (x y : ℤ) → x ≺ y → F64.of_i64 hundredths (pos 0) ≺ F64.sub hundredths y x
less_sub (pos a) (pos b) h = ground arith
less_sub (pos a) (negsuc b) h = ground arith
less_sub (negsuc a) (pos b) h = ground arith
less_sub (negsuc a) (negsuc b) h = ground arith

sub_self_lem : (x : ℤ) → x -ℤ x ≡ pos 0
sub_self_lem x = ground arith

positive : (c : ℤ) → F64.of_i64 hundredths (pos 0) ≺ c → pos 0 <ℤ c
positive (pos n) h = ground arith
positive (negsuc n) h = ground arith

sub_mono_lem : (c x y : ℤ) → x ≤ℤ y → x -ℤ c ≤ℤ y -ℤ c
sub_mono_lem c x y h = ground arith

sub_anti_lem : (c x y : ℤ) → x ≤ℤ y → c -ℤ y ≤ℤ c -ℤ x
sub_anti_lem c x y h = ground arith

add_mono_lem : (c x y : ℤ) → x ≤ℤ y → c +ℤ x ≤ℤ c +ℤ y
add_mono_lem c x y h = ground arith

div_self_lem : (d : ℤ) → pos 0 <ℤ d → F64.div hundredths d d ≡ pos 100
div_self_lem (pos n) h = let l = mul-div_cancel_left 100 {n = n} (omega arith) in ground arith
div_self_lem (negsuc n) h = absurd (omega arith)

zero_div_lem : (d : ℤ) → pos 0 <ℤ d → F64.div hundredths (pos 0) d ≡ pos 0
zero_div_lem (pos n) h = let l = zero-div n in ground arith
zero_div_lem (negsuc n) h = absurd (omega arith)

zero_mul_lem : (c : ℤ) → F64.mul hundredths (pos 0) c ≡ pos 0
zero_mul_lem (pos n) = ground arith
zero_mul_lem (negsuc n) = ground arith

one_mul_lem : (c : ℤ) → F64.mul hundredths (pos 100) c ≡ c
one_mul_lem (pos n) = ground arith
one_mul_lem (negsuc n) = ground arith

max_right_lem : (x y : ℤ) → y ≤ℤ max_ℤ x y
max_right_lem x y = ground arith

add_exact_lem : (a b : ℤ) → times a 100 +ℤ times b 100 ≡ times (a +ℤ b) 100
add_exact_lem (pos a) (pos b) = ground arith
add_exact_lem (pos a) (negsuc b) = ground arith
add_exact_lem (negsuc a) (pos b) = ground arith
add_exact_lem (negsuc a) (negsuc b) = ground arith

-- A number and the half that rounding adds to it.
half_mono : (x y : ℤ) → x ≤ℤ y → x +ℤ signed (pos 50) x ≤ℤ y +ℤ signed (pos 50) y
half_mono (pos a) (pos b) h = ground arith
half_mono (pos a) (negsuc b) h = absurd (omega arith)
half_mono (negsuc a) (pos b) h = ground arith
half_mono (negsuc a) (negsuc b) h = ground arith

round_mono_lem : (x y : ℤ) → x ≤ℤ y → F64.round hundredths x ≼ F64.round hundredths y
round_mono_lem x y h =
    let x' = x +ℤ signed (pos 50) x in
    let y' = y +ℤ signed (pos 50) y in
    ≼_intro (F64.round hundredths x) (F64.round hundredths y) (
      times_mono 100 (over x' 100) (over y' 100)
        (over_mono 100 x' y' (omega arith) (half_mono x y h)))

over-times : (a : ℤ) → over (times a 100) 100 ≡ a
over-times (pos n) = ground arith
over-times (negsuc n) = ground arith

over_half : (a : ℤ) → over (times a 100 +ℤ signed (pos 50) (times a 100)) 100 ≡ a
over_half (pos n) = ground arith
over_half (negsuc n) = ground arith

pub hundredths_laws : IeeeLaws ℤ
hundredths_laws = record {
  le_trans =
      λ x y z h k. let h' = ≼_elim x y h in let k' = ≼_elim y z k in ≼_intro x z (omega arith);
  of_i64_mono = λ a b h. ≼_intro (times a 100) (times b 100) (times_mono 100 a b h);
  of_i64_pos = λ a h. of_positive a h;
  of_i64-Finite = λ a. refl;
  between-Finite = λ a x b f g h k. refl;
  add_mono = λ c x y f h. ≼_intro (c +ℤ x) (c +ℤ y) (add_mono_lem c x y (≼_elim x y h));
  sub_mono = λ c x y f h. ≼_intro (x -ℤ c) (y -ℤ c) (sub_mono_lem c x y (≼_elim x y h));
  sub_anti = λ c x y f h. ≼_intro (c -ℤ y) (c -ℤ x) (sub_anti_lem c x y (≼_elim x y h));
  mul_mono =
      λ c x y f p h. mul_mono_lem c x y (let p' = positive c p in omega arith) (≼_elim x y h);
  mul_mono_finite = λ c x y f g g' p h. mul_mono_lem c x y (≼_elim (pos 0) c p) (≼_elim x y h);
  div_mono = λ d x y f p h. div_mono_lem d x y (positive d p) (≼_elim x y h);
  sub_pos = λ x y f g h. less_sub x y h;
  sub_self = λ x f. ≈_equal (sub_self_lem x);
  div_self = λ d f p. ≈_equal (div_self_lem d (positive d p));
  zero_div = λ d f p. ≈_equal (zero_div_lem d (positive d p));
  zero_mul = λ c f. ≈_equal (zero_mul_lem c);
  one_mul = λ c f. ≈_equal (one_mul_lem c);
  add_exact = λ a b h k. ≈_equal (add_exact_lem a b);
  max_right = λ x y f. ≼_intro y (F64.max hundredths x y) (max_right_lem x y);
  round_mono = λ x y h. round_mono_lem x y (≼_elim x y h);
  as_i64_mono = λ x y h. over_mono 100 x y (omega arith) (≼_elim x y h);
  as_i64_exact = λ a h. over-times a;
  round_exact = λ a h. let inner = over_half a in rw inner (over-times a);
}
