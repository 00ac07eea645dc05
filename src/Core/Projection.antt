-- ===== src/Core/Projection.antt =====
-- When history.rs gives an estimate, and when a fall in fullness is a pump-out.
use aquilo_offline.Base.{
  ltb, false, ℤ, pos, ◌≤ℤ◌, ◌-ℤ◌, ◌≤◌, ◌≡◌, ◌↔◌, refl, arith, F64, true, Option, some, List, [],
  ◌∷◌, Str, All, length, is_some, Option-cases, inl, inr, IsI64, wrap_i64_fits,
}
use aquilo_offline.Core.History.{ReadingRecord, is_pump_out, days_since, days_left}

abbrev pub IsPct : ℤ → Type 0
IsPct z = (pos 0 ≤ℤ z) × (z ≤ℤ pos 100)

-- Between percentages no difference wraps: a pump-out is a fall by the threshold at least.
pub is_pump_out_iff :
    (prev new drop : ℤ)
    → IsPct prev
    → IsPct new
    → (is_pump_out prev new drop ≡ true) ↔ (drop ≤ℤ prev -ℤ new)
unfolding is_pump_out
is_pump_out_iff prev new drop h k =
    rw (wrap_i64_fits (prev -ℤ new) (fits prev new h k)) (ground arith)
  where
    fits : (a b : ℤ) → IsPct a → IsPct b → IsI64 (a -ℤ b)
    fits a b h k = ground arith

module _ {R : Type 0} (F : F64 R) (parse_ts : Str → Option ℤ) where
  -- Every record has a timestamp that can be read.
  abbrev pub AreTimed : List (ReadingRecord R) → Type 0
  AreTimed rs = All (λ r. is_some (parse_ts r.ts) ≡ true) rs

  days_since-AreTimed :
      (t0 : ℤ) (rs : List (ReadingRecord R)) (xs : List R)
      → days_since F parse_ts t0 rs ≡ some xs
      → AreTimed rs
  unfolding days_since
  days_since-AreTimed t0 [] xs h = tt
  days_since-AreTimed t0 (r ∷ rs) xs h = elim (Option-cases (parse_ts r.ts)) [
    | inl e ↦ cc (rw e at h)
    | inr (t, e) ↦ elim (Option-cases (days_since F parse_ts t0 rs)) [
      | inl e' ↦ cc (rw (e, e') at h)
      | inr (ys, e') ↦ (rw e refl, days_since-AreTimed t0 rs ys e')
    ]
  ]

  -- An estimate is given only for two readings at least, all with timestamps that can be read.
  pub days_left-AreTimed :
      (rs : List (ReadingRecord R)) (full_dist : R) (days : ℤ)
      → days_left F parse_ts rs full_dist ≡ some days
      → (2 ≤ length rs) × AreTimed rs
  unfolding days_left
  days_left-AreTimed [] full_dist days h = cc
  days_left-AreTimed (r ∷ []) full_dist days h = cc
  days_left-AreTimed (r ∷ s ∷ rs) full_dist days h =
      let enough : ltb (length (r ∷ s ∷ rs)) 2 ≡ false = ground arith in
      elim (Option-cases (parse_ts r.ts)) [
        | inl e ↦ cc (rw (enough, e) at h)
        | inr (t0, e) ↦ elim (Option-cases (days_since F parse_ts t0 (r ∷ s ∷ rs))) [
          | inl e' ↦ cc (rw (enough, e, e') at h)
          | inr (xs, e') ↦ (omega arith, days_since-AreTimed t0 (r ∷ s ∷ rs) xs e')
        ]
      ]
