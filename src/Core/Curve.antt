-- ===== src/Core/Curve.antt =====
-- The battery curve as a whole, under the laws of IEEE 754: a higher voltage and the percentages of
-- the table.
use aquilo_offline.Base.{
  ℤ, ◌≤ℤ◌, ◌<ℤ◌, ≤ℤ_trans, leb_ℤ, F64, ◌≡◌, refl, arith, false, some, List, [], ◌∷◌, Bool-cases,
  inl, inr, if◌then◌else◌,
}
use aquilo_offline.Base.Ieee.{IeeeLaws}
use aquilo_offline.Core.Battery.{Point, last_point, interpolate, windows_loop, percent}
use aquilo_offline.Core.Charge.{IsPoint, interpolate_bounds, interpolate_mono}

-- The percentages rise with the table, or stay, and the numbers are small.
abbrev pub IsCurve : Point → List Point → Type 0
IsCurve p [] = IsPoint p
IsCurve p (q ∷ qs) = IsPoint p × (p.1 ≤ℤ q.1) × IsCurve q qs

IsCurve-first : (p : Point) (ps : List Point) → IsCurve p ps → IsPoint p
IsCurve-first p [] h = h
IsCurve-first p (q ∷ qs) h = h.0

IsCurve-last : (p : Point) (ps : List Point) → IsCurve p ps → p.1 ≤ℤ (last_point p ps).1
unfolding last_point
IsCurve-last p [] h = omega arith
IsCurve-last p (q ∷ qs) h = ≤ℤ_trans p.1 q.1 (last_point q qs).1 h.1 (IsCurve-last q qs h.2)

module _ {R : Type 0} ⦃F : F64 R⦄ (laws : IeeeLaws R) where
  windows_loop_bounds :
      (lo : Point) (ps : List Point) (mv : ℤ)
      → IsCurve lo ps
      → lo.0 <ℤ mv
      → (lo.1 ≤ℤ windows_loop F lo ps mv) × (windows_loop F lo ps mv ≤ℤ (last_point lo ps).1)
  unfolding windows_loop last_point
  windows_loop_bounds lo [] mv c h = (omega arith, omega arith)
  windows_loop_bounds lo (hi ∷ rest) mv c h = elim (Bool-cases (leb_ℤ mv hi.0)) [
    | inl e ↦
        let (low, high) =
          interpolate_bounds laws lo hi c.0 (IsCurve-first hi rest c.2) c.1 mv h (ground arith) in
        rw e (low, ≤ℤ_trans (interpolate F lo hi mv) hi.1 _ high (IsCurve-last hi rest c.2))
    | inr e ↦
        let (low, high) = windows_loop_bounds hi rest mv c.2 (ground arith) in
        rw e (≤ℤ_trans lo.1 hi.1 _ c.1 low, high)
  ]

  windows_loop_mono :
      (lo : Point) (ps : List Point) (m n : ℤ)
      → IsCurve lo ps
      → lo.0 <ℤ m
      → m ≤ℤ n
      → windows_loop F lo ps m ≤ℤ windows_loop F lo ps n
  unfolding windows_loop
  windows_loop_mono lo [] m n c h k = omega arith
  windows_loop_mono lo (hi ∷ rest) m n c h k = elim (Bool-cases (leb_ℤ m hi.0)) [
    | inl e ↦ elim (Bool-cases (leb_ℤ n hi.0)) [
      | inl e' ↦
          rw (e, e')
            (interpolate_mono laws lo hi c.0 (IsCurve-first hi rest c.2) c.1 m n h k (ground arith))
      | inr e' ↦
          let (low, high) =
            interpolate_bounds laws lo hi c.0 (IsCurve-first hi rest c.2) c.1 m h (ground arith) in
          rw (e, e') (≤ℤ_trans _ hi.1 _ high (windows_loop_bounds hi rest n c.2 (ground arith)).0)
    ]
    | inr e ↦
        let e' : leb_ℤ n hi.0 ≡ false = ground arith in
        rw (e, e') (windows_loop_mono hi rest m n c.2 (ground arith) k)
  ]

  -- The percentage that `percent` gives, behind its `some`.
  level : Point → List Point → ℤ → ℤ
  level p ps mv =
      if leb_ℤ mv p.0
      then p.1
      else if leb_ℤ (last_point p ps).0 mv
      then (last_point p ps).1
      else windows_loop F p ps mv

  level_bounds :
      (p : Point) (ps : List Point) (mv : ℤ)
      → IsCurve p ps
      → (p.1 ≤ℤ level p ps mv) × (level p ps mv ≤ℤ (last_point p ps).1)
  unfolding level
  level_bounds p ps mv c = elim (Bool-cases (leb_ℤ mv p.0)) [
    | inl e ↦ rw e (omega arith, IsCurve-last p ps c)
    | inr e ↦ elim (Bool-cases (leb_ℤ (last_point p ps).0 mv)) [
      | inl e' ↦ rw (e, e') (IsCurve-last p ps c, omega arith)
      | inr e' ↦ rw (e, e') (windows_loop_bounds p ps mv c (ground arith))
    ]
  ]

  level_mono :
      (p : Point) (ps : List Point) (m n : ℤ) → IsCurve p ps → m ≤ℤ n → level p ps m ≤ℤ level p ps n
  unfolding level
  level_mono p ps m n c k = elim (Bool-cases (leb_ℤ m p.0)) [
    | inl e ↦ rw e (unfold level in (level_bounds p ps n c).0)
    | inr e ↦
        let e' : leb_ℤ n p.0 ≡ false = ground arith in
        elim (Bool-cases (leb_ℤ (last_point p ps).0 n)) [
          | inl f ↦ rw (e', f) (unfold level in (level_bounds p ps m c).1)
          | inr f ↦
              let f' : leb_ℤ (last_point p ps).0 m ≡ false = ground arith in
              rw (e, e', f, f') (windows_loop_mono p ps m n c (ground arith) k)
        ]
  ]

  -- A curve whose percentages rise along the table, or stay: a higher voltage never has a lower
  -- percentage, and each is between the first percentage of the table and the last, whatever the
  -- voltages of the table.
  pub percent_mono :
      (p : Point) (ps : List Point) (m n : ℤ)
      → IsCurve p ps
      → m ≤ℤ n
      → (a : ℤ) × (b : ℤ) × (percent F (p ∷ ps) m ≡ some a)
        × (percent F (p ∷ ps) n ≡ some b)
        × (p.1 ≤ℤ a)
        × (a ≤ℤ b)
        × (b ≤ℤ (last_point p ps).1)
  unfolding percent level
  percent_mono p ps m n c k = (
    level p ps m,
    level p ps n,
    refl,
    refl,
    (level_bounds p ps m c).0,
    level_mono p ps m n c k,
    (level_bounds p ps n c).1,
  )
