-- ===== src/Core/Windows.antt =====
-- The battery curve: which breakpoints a voltage is read between, and how a table is sorted.
use aquilo_offline.Base.{
  ℤ, ◌≤ℤ◌, ◌<ℤ◌, leb_ℤ, ◌≡◌, refl, arith, F64, some, List, [], ◌∷◌, ◌⊎◌, inl, inr, Bool-cases,
}
use aquilo_offline.Core.Battery.{
  Point, insert_point, new_curve, last_point, interpolate, windows_loop, percent,
}

-- Two breakpoints, one behind the other in a table.
pub data Adjacent (lo hi : Point) : List Point → Type 0 where
  here : (rest : List Point) → Adjacent lo hi (lo ∷ hi ∷ rest)
  there : (p : Point) {ps : List Point} → Adjacent lo hi ps → Adjacent lo hi (p ∷ ps)

-- The voltages rise, or stay.
abbrev pub StartsAt : ℤ → List Point → Type 0
StartsAt mv [] = Unit
StartsAt mv (p ∷ ps) = mv ≤ℤ p.0

abbrev pub IsAscending : List Point → Type 0
IsAscending [] = Unit
IsAscending (p ∷ ps) = StartsAt p.0 ps × IsAscending ps

StartsAt-insert_point :
    (mv : ℤ) (p : Point) (ps : List Point)
    → mv ≤ℤ p.0
    → StartsAt mv ps
    → StartsAt mv (insert_point p ps)
unfolding insert_point
StartsAt-insert_point mv p [] h k = h
StartsAt-insert_point mv p (q ∷ qs) h k = elim (Bool-cases (leb_ℤ p.0 q.0)) [
  | inl e ↦ rw e h
  | inr e ↦ rw e k
]

insert_point-IsAscending :
    (p : Point) (ps : List Point) → IsAscending ps → IsAscending (insert_point p ps)
unfolding insert_point
insert_point-IsAscending p [] h = (tt, tt)
insert_point-IsAscending p (q ∷ qs) h = elim (Bool-cases (leb_ℤ p.0 q.0)) [
  | inl e ↦ rw e (ground arith, h)
  | inr e ↦
      rw e (StartsAt-insert_point q.0 p qs (ground arith) h.0, insert_point-IsAscending p qs h.1)
]

-- A curve is in ascending order of voltage, whatever order its breakpoints came in.
pub new_curve-IsAscending : (ps : List Point) → IsAscending (new_curve ps)
unfolding new_curve
new_curve-IsAscending [] = tt
new_curve-IsAscending (p ∷ ps) =
    insert_point-IsAscending p (new_curve ps) (new_curve-IsAscending ps)

module _ {R : Type 0} (F : F64 R) where
  -- The breakpoints that a voltage is read between.
  pub record Between (table : List Point) (mv v : ℤ) : Type 0 where
    pub lo : Point
    pub hi : Point
    pub adjacent : Adjacent lo hi table
    pub above : lo.0 <ℤ mv
    pub below : mv ≤ℤ hi.0
    pub value : v ≡ interpolate F lo hi mv

  Between-there :
      (p : Point) {table : List Point} {mv v : ℤ} → Between table mv v → Between (p ∷ table) mv v
  Between-there p b = record {
    lo = b.lo;
    hi = b.hi;
    adjacent = there p b.adjacent;
    above = b.above;
    below = b.below;
    value = b.value;
  }

  windows_loop-Between :
      (lo : Point) (ps : List Point) (mv : ℤ)
      → lo.0 <ℤ mv
      → mv <ℤ (last_point lo ps).0
      → Between (lo ∷ ps) mv (windows_loop F lo ps mv)
  unfolding windows_loop last_point
  windows_loop-Between lo [] mv h k = absurd (omega arith)
  windows_loop-Between lo (hi ∷ rest) mv h k = elim (Bool-cases (leb_ℤ mv hi.0)) [
    | inl e ↦ rw e (record {
      lo = lo;
      hi = hi;
      adjacent = here rest;
      above = h;
      below = ground arith;
      value = refl;
    })
    | inr e ↦ rw e (Between-there lo (windows_loop-Between hi rest mv (ground arith) k))
  ]

  -- A table that is not empty gives every voltage a percentage: the first breakpoint's up to it, the
  -- last one's from it on, and else the value interpolated between two adjacent breakpoints that the
  -- voltage lies between. The loop over the windows never falls through.
  pub percent_lem :
      (p : Point) (ps : List Point) (mv : ℤ)
      → (v : ℤ) × (percent F (p ∷ ps) mv ≡ some v)
        × ((mv ≤ℤ p.0) × (v ≡ p.1)
            ⊎ ((last_point p ps).0 ≤ℤ mv) × (v ≡ (last_point p ps).1)
            ⊎ Between (p ∷ ps) mv v)
  unfolding percent
  percent_lem p ps mv = elim (Bool-cases (leb_ℤ mv p.0)) [
    | inl e ↦ rw e (p.1, refl, inl (ground arith, refl))
    | inr e ↦ rw e (elim (Bool-cases (leb_ℤ (last_point p ps).0 mv)) [
      | inl e' ↦ rw e' ((last_point p ps).1, refl, inr (inl (ground arith, refl)))
      | inr e' ↦ rw e' (
        windows_loop F p ps mv,
        refl,
        inr (inr (windows_loop-Between p ps mv (ground arith) (ground arith))),
      )
    ])
  ]
