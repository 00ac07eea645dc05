-- ===== src/Core/History.antt =====
-- aquilo-core/src/history.rs. `parse_ts` is chrono's `parse_from_rfc3339(ts)` with its timestamp.
use mathlib.Core.Option
use aquilo_offline.Base.{
  ℤ, pos, ◌-ℤ◌, leb_ℤ, wrap_i64, F64, Bool, Option, none, some, List, [], ◌∷◌, Str, length, ltb,
  last?, if◌then◌else◌, ◌>>=◌,
}

pub record ReadingRecord (R : Type 0) : Type 0 where
  pub ts : Str
  pub lvl : R
  pub bat : ℤ

-- `prev_pct - new_pct >= drop_threshold_pct`
unfoldable pub is_pump_out : ℤ → ℤ → ℤ → Bool
is_pump_out prev_pct new_pct drop_threshold_pct =
    leb_ℤ drop_threshold_pct (wrap_i64 (prev_pct -ℤ new_pct))

module _ {R : Type 0} (F : F64 R) (parse_ts : Str → Option ℤ) where
  open F use {of_i64, add, sub, mul, div, neg, round, as_i64, le, eq, sum, max}

  -- The loop that fills `xs`: the days since the first reading. A bad timestamp ends it.
  unfoldable pub days_since : ℤ → List (ReadingRecord R) → Option (List R)
  days_since t0 [] = some []
  days_since t0 (r ∷ rs) = do
    t ← parse_ts r.ts
    xs ← days_since t0 rs
    some (div (of_i64 (wrap_i64 (t -ℤ t0))) (of_i64 (pos 86400)) ∷ xs)

  unfoldable pub levels : List (ReadingRecord R) → List R
  levels [] = []
  levels (r ∷ rs) = r.lvl ∷ levels rs

  -- The loop over `sxx` and `sxy`.
  unfoldable pub moments : R → R → List R → List R → R → R → R × R
  moments mean_x mean_y (x ∷ xs) (y ∷ ys) sxx sxy =
      let dx = sub x mean_x in
      moments mean_x mean_y xs ys (add sxx (mul dx dx)) (add sxy (mul dx (sub y mean_y)))
  moments mean_x mean_y _ _ sxx sxy = (sxx, sxy)

  -- From the sums on: no rate when all readings share a timestamp or the tank is not filling.
  unfoldable pub project : R → R → Option R → R → Option ℤ
  project sxx sxy current full_dist =
      if eq sxx (of_i64 (pos 0))
      then none
      else (let fill_rate = neg (div sxy sxx) in
          if le fill_rate (of_i64 (pos 0)) then none else (do
            lvl ← current
            let days = div (sub lvl full_dist) fill_rate
            some (as_i64 (max (round days) (of_i64 (pos 0))))))

  unfoldable pub days_left : List (ReadingRecord R) → R → Option ℤ
  days_left [] full_dist = none
  days_left (r ∷ rs) full_dist = if ltb (length (r ∷ rs)) 2 then none else (do
    t0 ← parse_ts r.ts
    xs ← days_since t0 (r ∷ rs)
    let ys = levels (r ∷ rs)
    let n = of_i64 (pos (length (r ∷ rs)))
    let mean_x = div (sum xs) n
    let mean_y = div (sum ys) n
    let (sxx, sxy) = moments mean_x mean_y xs ys (of_i64 (pos 0)) (of_i64 (pos 0))
    project sxx sxy (Option.map (λ l. l.lvl) (last? (r ∷ rs))) full_dist)
