-- ===== src/Core/Sorting.antt =====
-- `BatteryCurve::new` as a sort of the table, and the order that its breakpoints come in.
use mathlib.Core.Logic.{∥∥₁_elim}
use mathlib.Core.List.{Perm, Permᴰ}
use mathlib.Core.List.Perm
use aquilo_offline.Base.{
  ℤ, ◌≤ℤ◌, leb_ℤ, ≤ℤ_antisym, ◌≡◌, refl, ap, arith, List, [], ◌∷◌, Bool-cases, inl, inr, All, ◌∙◌,
  sym, true, false, if◌then◌else◌, ◌&&◌,
}
use aquilo_offline.Core.Battery.{Point, insert_point, new_curve}
use aquilo_offline.Core.Windows.{IsAscending, new_curve-IsAscending}

insert_point-perm : (p : Point) (ps : List Point) → Perm (insert_point p ps) (p ∷ ps)
unfolding insert_point
insert_point-perm p [] = Perm.rfl
insert_point-perm p (q ∷ qs) = elim (Bool-cases (leb_ℤ p.0 q.0)) [
  | inl e ↦ rw e Perm.rfl
  | inr e ↦ rw e (Perm.trans (Perm.cons q (insert_point-perm p qs)) (Perm.swap p q qs))
]

kept : (ps : List Point) → Perm (new_curve ps) ps
unfolding new_curve
kept [] = Perm.rfl
kept (p ∷ ps) = Perm.trans (insert_point-perm p (new_curve ps)) (Perm.cons p (kept ps))

-- Breakpoints at equal voltages are equal.
abbrev Agree : Point → Point → Type 0
Agree p q = p.0 ≤ℤ q.0 → q.0 ≤ℤ p.0 → p ≡ q

-- Two breakpoints ahead of a table that both belong in front of.
insert_point_front :
    (p q : Point) (ts : List Point)
    → Agree p q
    → insert_point p ts ≡ p ∷ ts
    → insert_point q ts ≡ q ∷ ts
    → insert_point p (q ∷ ts) ≡ insert_point q (p ∷ ts)
unfolding insert_point
insert_point_front p q ts h a b = elim (Bool-cases (leb_ℤ p.0 q.0)) [
  | inl e ↦ elim (Bool-cases (leb_ℤ q.0 p.0)) [
    | inl e' ↦ let same = h (ground arith) (ground arith) in rw (e, e', same) refl
    | inr e' ↦ rw (e, e', b) refl
  ]
  | inr e ↦ elim (Bool-cases (leb_ℤ q.0 p.0)) [
    | inl e' ↦ rw (e, e', a) refl
    | inr e' ↦ absurd (ground arith)
  ]
]

insert_point_before :
    (p t : Point) (ts : List Point) → leb_ℤ p.0 t.0 ≡ true → insert_point p (t ∷ ts) ≡ p ∷ t ∷ ts
unfolding insert_point
insert_point_before p t ts e = rw e refl

insert_point_behind :
    (p t : Point) (ts : List Point)
    → leb_ℤ p.0 t.0 ≡ false
    → insert_point p (t ∷ ts) ≡ t ∷ insert_point p ts
unfolding insert_point
insert_point_behind p t ts e = rw e refl

-- One of the two belongs in front of the table's head, the other one behind it.
insert_point_around :
    (p q t : Point) (ts : List Point)
    → leb_ℤ p.0 t.0 ≡ true
    → leb_ℤ q.0 t.0 ≡ false
    → insert_point p (insert_point q (t ∷ ts)) ≡ insert_point q (insert_point p (t ∷ ts))
insert_point_around p q t ts e e' =
    let apart : leb_ℤ q.0 p.0 ≡ false = ground arith in
    ap (insert_point p) (insert_point_behind q t ts e')
    ∙ insert_point_before p t (insert_point q ts) e
    ∙ sym (
        ap (insert_point q) (insert_point_before p t ts e)
        ∙ insert_point_behind q p (t ∷ ts) apart
        ∙ ap (◌∷◌ p) (insert_point_behind q t ts e'))

-- The order of two inserts does not matter.
insert_point_comm :
    (p q : Point) (ts : List Point)
    → Agree p q
    → insert_point p (insert_point q ts) ≡ insert_point q (insert_point p ts)
unfolding insert_point
insert_point_comm p q [] h = insert_point_front p q [] h refl refl
insert_point_comm p q (t ∷ ts) h = elim (Bool-cases (leb_ℤ p.0 t.0)) [
  | inl e ↦ elim (Bool-cases (leb_ℤ q.0 t.0)) [
    | inl e' ↦
        let p_front = insert_point_before p t ts e in
        let q_front = insert_point_before q t ts e' in
        ap (insert_point p) q_front
        ∙ insert_point_front p q (t ∷ ts) h p_front q_front
        ∙ sym (ap (insert_point q) p_front)
    | inr e' ↦ insert_point_around p q t ts e e'
  ]
  | inr e ↦ elim (Bool-cases (leb_ℤ q.0 t.0)) [
    | inl e' ↦ sym (insert_point_around q p t ts e' e)
    | inr e' ↦
        ap (insert_point p) (insert_point_behind q t ts e')
        ∙ insert_point_behind p t (insert_point q ts) e
        ∙ ap (◌∷◌ t) (insert_point_comm p q ts h)
        ∙ sym (
            ap (insert_point q) (insert_point_behind p t ts e)
            ∙ insert_point_behind q t (insert_point p ts) e')
  ]
]

-- The table is the graph of a function of the voltage.
abbrev pub IsGraph : (ℤ → ℤ) → List Point → Type 0
IsGraph f ps = All (λ p. p.1 ≡ f p.0) ps

agree : (f : ℤ → ℤ) (p q : Point) → p.1 ≡ f p.0 → q.1 ≡ f q.0 → Agree p q
agree f p q h k l m = let same = ≤ℤ_antisym p.0 q.0 l m in λ i. (same i, (h ∙ ap f same ∙ sym k) i)

same_curve :
    (f : ℤ → ℤ) {ps qs : List Point}
    → Permᴰ ps qs
    → IsGraph f ps
    → (new_curve ps ≡ new_curve qs) × IsGraph f qs
unfolding new_curve
same_curve f Permᴰ.nil g = (refl, tt)
same_curve f (Permᴰ.cons {b = b} {l₁ = l₁} e d) g =
    let (same, h) = same_curve f d g.1 in ((λ i. insert_point (e i) (same i)), (rw e at g.0, h))
same_curve f (Permᴰ.swap {a = a} {b = b} {l = l} e e') g = (
  insert_point_comm a b (new_curve l) (agree f a b g.0 g.1.0)
      ∙ (λ i. insert_point (e' i) (insert_point (e i) (new_curve l))),
  (rw e' at g.1.0, (rw e at g.0, g.1.1)),
)
same_curve f (Permᴰ.trans d d') g =
    let (same, h) = same_curve f d g in let (same', k) = same_curve f d' h in (same ∙ same', k)

set : IsSet (List Point)
set = hlevel

-- If each voltage has one percentage, the order of a table does not matter.
new_curve-perm :
    (f : ℤ → ℤ) {ps qs : List Point} → IsGraph f ps → Perm ps qs → new_curve ps ≡ new_curve qs
new_curve-perm f {ps} {qs} g d = ∥∥₁_elim d (set _ _) (λ d'. (same_curve f d' g).0)

-- The breakpoints of a table at one voltage, in the table's order.
abbrev pub at_voltage : ℤ → List Point → List Point
at_voltage v [] = []
at_voltage v (p ∷ ps) = if leb_ℤ v p.0 && leb_ℤ p.0 v then p ∷ at_voltage v ps else at_voltage v ps

at_voltage-insert_point :
    (v : ℤ) (p : Point) (ps : List Point) → at_voltage v (insert_point p ps) ≡ at_voltage v (p ∷ ps)
unfolding insert_point
at_voltage-insert_point v p [] = refl
at_voltage-insert_point v p (q ∷ qs) = ground (arith, at_voltage-insert_point v p qs)

at_voltage-new_curve : (v : ℤ) (ps : List Point) → at_voltage v (new_curve ps) ≡ at_voltage v ps
unfolding new_curve
at_voltage-new_curve v [] = refl
at_voltage-new_curve v (p ∷ ps) =
    at_voltage-insert_point v p (new_curve ps)
    ∙ ap (λ l. if leb_ℤ v p.0 && leb_ℤ p.0 v then p ∷ l else l) (at_voltage-new_curve v ps)

-- The curve of any table has the breakpoints of the table, each as often, in ascending order of
-- voltage; and those at one voltage keep the order that they have in the table.
pub new_curve_stable :
    (ps : List Point)
    → IsAscending (new_curve ps)
      × Perm (new_curve ps) ps
      × ((v : ℤ) → at_voltage v (new_curve ps) ≡ at_voltage v ps)
new_curve_stable ps = (new_curve-IsAscending ps, kept ps, λ v. at_voltage-new_curve v ps)
