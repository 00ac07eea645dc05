-- ===== src/Core/Estimate.antt =====
-- The estimate of history.rs, under the laws of IEEE 754.
use aquilo_offline.Base.{
  ltb, false, ℤ, pos, ◌≤ℤ◌, ◌≤◌, ◌≡◌, arith, F64, Option, some, List, [], ◌∷◌, Str, length,
  Option-cases, Bool-cases, inl, inr, unwrap_or, ap,
}
use aquilo_offline.Base.Ieee.{IeeeLaws}
use aquilo_offline.Core.History.{ReadingRecord, days_since, project, days_left}
use aquilo_offline.Core.Projection.{AreTimed, days_left-AreTimed}

module _ {R : Type 0} ⦃F : F64 R⦄ (laws : IeeeLaws R) (parse_ts : Str → Option ℤ) where
  open laws use {max_right, of_i64-Finite, as_i64_mono, as_i64_exact}

  floored : (x : R) → pos 0 ≤ℤ F.as_i64 (F.max x (F.of_i64 (pos 0)))
  floored x =
      let zero_lem = as_i64_exact (pos 0) (omega arith) in
      rw zero_lem at (as_i64_mono _ _ (max_right x (F.of_i64 (pos 0)) (of_i64-Finite (pos 0))))

  project_bounds :
      (sxx sxy : R) (current : Option R) (full_dist : R) (days : ℤ)
      → project F parse_ts sxx sxy current full_dist ≡ some days
      → pos 0 ≤ℤ days
  unfolding project
  project_bounds sxx sxy current full_dist days h =
      elim (Bool-cases (F.eq sxx (F.of_i64 (pos 0)))) [
        | inl e ↦ cc (rw e at h)
        | inr e ↦ elim (Bool-cases (F.le (F.neg (F.div sxy sxx)) (F.of_i64 (pos 0)))) [
          | inl e' ↦ cc (rw (e, e') at h)
          | inr e' ↦ elim (Option-cases current) [
            | inl n ↦ cc (rw (e, e', n) at h)
            | inr (lvl, s) ↦
                let same = ap (λ o. unwrap_or o days) (rw (e, e', s) at h) in
                rw same at (floored (F.round (F.div (F.sub lvl full_dist) (F.neg (F.div sxy sxx)))))
          ]
        ]
      ]

  -- An estimate is given only for two readings at least, all with timestamps that can be read, and it
  -- is not negative, also for a tank that is over its full level.
  pub days_left_bounds :
      (rs : List (ReadingRecord R)) (full_dist : R) (days : ℤ)
      → days_left F parse_ts rs full_dist ≡ some days
      → (2 ≤ length rs) × AreTimed F parse_ts rs × (pos 0 ≤ℤ days)
  unfolding days_left
  days_left_bounds [] full_dist days h = cc
  days_left_bounds (r ∷ []) full_dist days h = cc
  days_left_bounds (r ∷ s ∷ rs) full_dist days h =
      let enough : ltb (length (r ∷ s ∷ rs)) 2 ≡ false = ground arith in
      let (two, timed) = days_left-AreTimed F parse_ts (r ∷ s ∷ rs) full_dist days h in
      elim (Option-cases (parse_ts r.ts)) [
        | inl e ↦ cc (rw (enough, e) at h)
        | inr (t0, e) ↦ elim (Option-cases (days_since F parse_ts t0 (r ∷ s ∷ rs))) [
          | inl e' ↦ cc (rw (enough, e, e') at h)
          | inr (xs, e') ↦
              (two, timed, project_bounds _ _ _ full_dist days (rw (enough, e, e') at h))
        ]
      ]
