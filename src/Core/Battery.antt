-- ===== src/Core/Battery.antt =====
-- aquilo-core/src/battery.rs. Breakpoints are pairs of millivolts and percent.
use aquilo_offline.Base.{
  ℤ, pos, ◌-ℤ◌, leb_ℤ, wrap_i64, F64, Option, none, some, List, [], ◌∷◌, if◌then◌else◌,
}

abbrev pub Point : Type 0
Point = ℤ × ℤ

unfoldable pub default_points : List Point
default_points = (pos 3300, pos 0) ∷ (pos 3770, pos 83) ∷ (pos 4200, pos 100) ∷ []

-- `sort_by_key` on the voltage, a stable sort.
unfoldable pub insert_point : Point → List Point → List Point
insert_point p [] = p ∷ []
insert_point p (q ∷ qs) = if leb_ℤ p.0 q.0 then p ∷ q ∷ qs else q ∷ insert_point p qs

-- `BatteryCurve::new`
unfoldable pub new_curve : List Point → List Point
new_curve [] = []
new_curve (p ∷ ps) = insert_point p (new_curve ps)

-- The last of a table that begins with `p`.
unfoldable pub last_point : Point → List Point → Point
last_point p [] = p
last_point p (q ∷ qs) = last_point q qs

module _ {R : Type 0} (F : F64 R) where
  open F use {of_i64, add, mul, div, round, as_i64}

  -- The value between two breakpoints.
  unfoldable pub interpolate : Point → Point → ℤ → ℤ
  interpolate lo hi mv =
      let t = div (of_i64 (wrap_i64 (mv -ℤ lo.0))) (of_i64 (wrap_i64 (hi.0 -ℤ lo.0))) in
      as_i64 (round (add (of_i64 lo.1) (mul t (of_i64 (wrap_i64 (hi.1 -ℤ lo.1))))))

  -- The loop over `windows(2)`, from the window that begins with `lo`; behind the last window stands
  -- the last breakpoint's percentage.
  unfoldable pub windows_loop : Point → List Point → ℤ → ℤ
  windows_loop lo [] mv = lo.1
  windows_loop lo (hi ∷ rest) mv =
      if leb_ℤ mv hi.0 then interpolate lo hi mv else windows_loop hi rest mv

  -- `none` is the panic of `pts[0]` on an empty table.
  unfoldable pub percent : List Point → ℤ → Option ℤ
  percent [] mv = none
  percent (p ∷ ps) mv = some (
      if leb_ℤ mv p.0
      then p.1
      else if leb_ℤ (last_point p ps).0 mv
      then (last_point p ps).1
      else windows_loop p ps mv)
