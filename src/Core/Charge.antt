-- ===== src/Core/Charge.antt =====
-- The value between two breakpoints of the battery curve, under the laws of IEEE 754.
use aquilo_offline.Base.{
  ℤ, pos, negsuc, ◌≤ℤ◌, ◌<ℤ◌, ◌-ℤ◌, ◌+ℤ◌, ≤ℤ_trans, wrap_i64, wrap_i64_fits, pos_part, neg_part,
  ◌≤◌, ◌^◌, F64, ◌≡◌, arith,
}
use aquilo_offline.Base.Ieee.{
  ◌≼◌, ◌≺◌, ◌≈◌, Finite, IeeeLaws, rounded, rounded_mono, rounded_exact, ≈_trans,
}
use aquilo_offline.Core.Battery.{Point, interpolate}

-- A number whose differences a double holds exactly.
abbrev pub IsSmall : ℤ → Type 0
IsSmall z = (pos_part z ≤ 2 ^ 51) × (neg_part z ≤ 2 ^ 51)

pub record IsPoint (p : Point) : Type 0 where
  pub mv : IsSmall p.0
  pub pct : IsSmall p.1

-- Differences of such numbers, and of numbers between them, do not wrap.
wrap_difference : (a b c : ℤ) → IsSmall a → IsSmall c → a ≤ℤ b → b ≤ℤ c → wrap_i64 (b -ℤ a) ≡ b -ℤ a
wrap_difference a b c h k l m = wrap_i64_fits (b -ℤ a) (ground arith)

plus_zero : (a : ℤ) → a +ℤ pos 0 ≡ a
plus_zero (pos a) = ground arith
plus_zero (negsuc a) = ground arith

plus_difference : (a b : ℤ) → a +ℤ (b -ℤ a) ≡ b
plus_difference (pos a) (pos b) = ground arith
plus_difference (pos a) (negsuc b) = ground arith
plus_difference (negsuc a) (pos b) = ground arith
plus_difference (negsuc a) (negsuc b) = ground arith

module _ {R : Type 0} ⦃F : F64 R⦄ (laws : IeeeLaws R) (lo hi : Point) (small_lo : IsPoint lo)
    (small_hi : IsPoint hi) (rises : lo.1 ≤ℤ hi.1) where
  open laws use {
    le_trans, of_i64_mono, of_i64_pos, of_i64-Finite, between-Finite, add_mono, div_mono, div_self,
    zero_div, mul_mono_finite, zero_mul, one_mul, add_exact,
  }

  -- How far a voltage is between the two, and the value at that share of the way.
  share : ℤ → R
  share mv = F.div (F.of_i64 (mv -ℤ lo.0)) (F.of_i64 (hi.0 -ℤ lo.0))

  raised : R → R
  raised t = F.add (F.of_i64 lo.1) (F.mul t (F.of_i64 (hi.1 -ℤ lo.1)))

  interpolate_lem :
      (mv : ℤ) → lo.0 <ℤ mv → mv ≤ℤ hi.0 → interpolate F lo hi mv ≡ rounded (raised (share mv))
  unfolding interpolate raised share
  interpolate_lem mv h k =
      let part = wrap_difference lo.0 mv hi.0 small_lo.mv small_hi.mv (omega arith) k in
      let whole =
        wrap_difference lo.0 hi.0 hi.0 small_lo.mv small_hi.mv (omega arith) (omega arith) in
      let rise = wrap_difference lo.1 hi.1 hi.1 small_lo.pct small_hi.pct rises (omega arith) in
      λ i. rounded (
        F.add (F.of_i64 lo.1)
          (F.mul (F.div (F.of_i64 (part i)) (F.of_i64 (whole i))) (F.of_i64 (rise i))))

  width_pos : (mv : ℤ) → lo.0 <ℤ mv → mv ≤ℤ hi.0 → F.of_i64 (pos 0) ≺ F.of_i64 (hi.0 -ℤ lo.0)
  width_pos mv h k = of_i64_pos (hi.0 -ℤ lo.0) (ground arith)

  share_mono : (m n : ℤ) → lo.0 <ℤ m → m ≤ℤ n → n ≤ℤ hi.0 → share m ≼ share n
  unfolding share
  share_mono m n h k l =
      div_mono (F.of_i64 (hi.0 -ℤ lo.0)) _ _ (of_i64-Finite _) (width_pos n (omega arith) l)
        (of_i64_mono (m -ℤ lo.0) (n -ℤ lo.0) (ground arith))

  share_bounds :
      (mv : ℤ)
      → lo.0 <ℤ mv
      → mv ≤ℤ hi.0
      → (F.of_i64 (pos 0) ≼ share mv) × (share mv ≼ F.of_i64 (pos 1)) × Finite (share mv)
  unfolding share
  share_bounds mv h k =
      let width = F.of_i64 (hi.0 -ℤ lo.0) in
      let finite = of_i64-Finite (hi.0 -ℤ lo.0) in
      let positive = width_pos mv h k in
      let low =
        le_trans _ _ _ (zero_div width finite positive).1
          (div_mono width _ _ finite positive (of_i64_mono (pos 0) (mv -ℤ lo.0) (ground arith))) in
      let high =
        le_trans _ _ _
          (div_mono width _ _ finite positive
            (of_i64_mono (mv -ℤ lo.0) (hi.0 -ℤ lo.0) (ground arith)))
          (div_self width finite positive).0 in
      (low, high, between-Finite _ _ _ (of_i64-Finite (pos 0)) (of_i64-Finite (pos 1)) low high)

  raised_mono : (s t : R) → Finite s → Finite t → s ≼ t → raised s ≼ raised t
  unfolding raised
  raised_mono s t f g h =
      let flat = of_i64_mono (pos 0) (hi.1 -ℤ lo.1) (ground arith) in
      add_mono (F.of_i64 lo.1) _ _ (of_i64-Finite lo.1)
        (mul_mono_finite (F.of_i64 (hi.1 -ℤ lo.1)) s t (of_i64-Finite _) f g flat h)

  -- Adding to the lower percentage keeps what is numerically equal.
  plus_cong : (x y : R) → x ≈ y → F.add (F.of_i64 lo.1) x ≈ F.add (F.of_i64 lo.1) y
  plus_cong x y h = (
    add_mono (F.of_i64 lo.1) x y (of_i64-Finite lo.1) h.0,
    add_mono (F.of_i64 lo.1) y x (of_i64-Finite lo.1) h.1,
  )

  raised-zero : raised (F.of_i64 (pos 0)) ≈ F.of_i64 lo.1
  unfolding raised
  raised-zero =
      let kept : lo.1 +ℤ pos 0 ≡ lo.1 = plus_zero lo.1 in
      let e =
        add_exact lo.1 (pos 0) (omega (arith, small_lo.pct))
          (rw kept (omega (arith, small_lo.pct))) in
      ≈_trans laws (plus_cong _ _ (zero_mul _ (of_i64-Finite _))) (rw kept at e)

  raised-one : raised (F.of_i64 (pos 1)) ≈ F.of_i64 hi.1
  unfolding raised
  raised-one =
      let whole : lo.1 +ℤ (hi.1 -ℤ lo.1) ≡ hi.1 = plus_difference lo.1 hi.1 in
      let e =
        add_exact lo.1 (hi.1 -ℤ lo.1) (omega (arith, small_lo.pct))
          (rw whole (omega (arith, small_hi.pct))) in
      ≈_trans laws (plus_cong _ _ (one_mul _ (of_i64-Finite _))) (rw whole at e)

  -- Between two breakpoints the percentage is between theirs, and does not fall.
  pub interpolate_bounds :
      (mv : ℤ)
      → lo.0 <ℤ mv
      → mv ≤ℤ hi.0
      → (lo.1 ≤ℤ interpolate F lo hi mv) × (interpolate F lo hi mv ≤ℤ hi.1)
  interpolate_bounds mv h k =
      let (low, high, finite) = share_bounds mv h k in
      let bottom = rounded_exact laws _ lo.1 (omega (arith, small_lo.pct)) raised-zero in
      let top = rounded_exact laws _ hi.1 (omega (arith, small_hi.pct)) raised-one in
      rw (interpolate_lem mv h k) (
        rw bottom at (rounded_mono laws _ _ (raised_mono _ _ (of_i64-Finite (pos 0)) finite low)),
        rw top at (rounded_mono laws _ _ (raised_mono _ _ finite (of_i64-Finite (pos 1)) high)),
      )

  pub interpolate_mono :
      (m n : ℤ) → lo.0 <ℤ m → m ≤ℤ n → n ≤ℤ hi.0 → interpolate F lo hi m ≤ℤ interpolate F lo hi n
  interpolate_mono m n h k l =
      let below : m ≤ℤ hi.0 = ≤ℤ_trans m n hi.0 k l in
      let above : lo.0 <ℤ n = omega arith in
      let (low, high, finite) = share_bounds m h below in
      let (low', high', finite') = share_bounds n above l in
      rw (interpolate_lem m h below, interpolate_lem n above l)
        (rounded_mono laws _ _ (raised_mono _ _ finite finite' (share_mono m n h k l)))
