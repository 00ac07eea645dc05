-- ===== src/Server/Batch.antt =====
-- Readings one after the other: what `Runtime::apply_reading` of server.rs does over a sequence of
-- them, and what the sequence alone says of the history, the estimate and the last values.
use mathlib.Core.Path.{subst}
use aquilo_offline.Base.{
  lengths, ℕ, zero, suc, ℤ, pos, ◌+◌, ◌-◌, ◌≤◌, ◌≡◌, refl, sym, ◌∙◌, ap, arith, F64, Option, none,
  some, List, [], ◌∷◌, ◌++◌, Str, length, drop, length-append, append_assoc, drop-append_le,
  unwrap_or, ◌>>=◌,
}
use aquilo_offline.Core.Battery.{default_points, percent}
use aquilo_offline.Core.Calibration.{pct}
use aquilo_offline.Core.History.{ReadingRecord, days_left}
use aquilo_offline.Core.Reading.{Reading}
use aquilo_offline.Server.Config.{Config}
use aquilo_offline.Server.History.{default-percent}
use aquilo_offline.Server.Runtime.{Runtime, apply_reading}
use aquilo_offline.Server.Transition.{Applied, apply_reading-Applied}

-- The last `n` of a list.
abbrev pub last_of : {A : Type 0} → ℕ → List A → List A
last_of n xs = drop (length xs - n) xs

drop_nil : {A : Type 0} (n : ℕ) → drop {A = A} n [] ≡ []
drop_nil zero = refl
drop_nil (suc n) = refl

drop-drop : {A : Type 0} (m n k : ℕ) (xs : List A) → k ≡ n + m → drop m (drop n xs) ≡ drop k xs
drop-drop m zero k xs h = ap (λ (i : ℕ). drop i xs) (omega (arith, h))
drop-drop m (suc n) k [] h = drop_nil m ∙ sym (drop_nil k)
drop-drop m (suc n) zero (x ∷ xs) h = absurd (omega arith)
drop-drop m (suc n) (suc k) (x ∷ xs) h = drop-drop m n k xs (omega arith)

last_of-append :
    {A : Type 0} (n : ℕ) (xs ys : List A) → last_of n (last_of n xs ++ ys) ≡ last_of n (xs ++ ys)
last_of-append n xs ys =
    let k = length xs - n in
    let joined : last_of n xs ++ ys ≡ drop k (xs ++ ys) =
      sym (drop-append_le k xs ys (omega arith)) in
    ap (last_of n) joined ∙ drop-drop _ k _ (xs ++ ys) (grind (arith, lengths))

module _ {R : Type 0} (F : F64 R) (parse_ts : Str → Option ℤ) (cfg : Config R) where
  -- The readings in the order of their arrival, with their times.
  abbrev pub Readings : Type 0
  Readings = List (Reading R × Str)

  abbrev pub fullness : Reading R → ℤ
  fullness reading = pct F cfg.calibration reading.level_cm

  abbrev pub battery : Reading R → ℤ
  battery reading = unwrap_or (percent F default_points reading.battery_mv) (pos 0)

  unfoldable pub apply_readings : Runtime R → Readings → Option (Runtime R)
  apply_readings rt [] = some rt
  apply_readings rt ((reading, now) ∷ rs) = do
    rt1 ← apply_reading F parse_ts rt cfg default_points reading now
    apply_readings rt1 rs

  -- What the last reading says, or what there was before.
  abbrev pub last_value : {X : Type 0} → (Reading R → Str → X) → X → Readings → X
  last_value f x [] = x
  last_value f x ((reading, now) ∷ rs) = last_value f (f reading now) rs

  abbrev pub record_of : Reading R → Str → ReadingRecord R
  record_of reading now = record { ts = now; lvl = reading.level_cm; bat = battery reading }

  abbrev pub records : Readings → List (ReadingRecord R)
  records [] = []
  records ((reading, now) ∷ rs) = record_of reading now ∷ records rs

  -- The estimate behind all readings: each makes it anew, over the end of all records up to its own, or
  -- leaves it where these give none.
  abbrev pub estimate : List (ReadingRecord R) → ℤ → Readings → ℤ
  estimate past days [] = days
  estimate past days ((reading, now) ∷ rs) =
      let seen = past ++ record_of reading now ∷ [] in
      estimate seen
        (unwrap_or
          (days_left F parse_ts (last_of cfg.history_max_len seen) cfg.calibration.full_dist) days)
        rs

  pub fits_whole :
      (history : List (ReadingRecord R))
      → length history ≤ cfg.history_max_len
      → last_of cfg.history_max_len history ≡ history
  fits_whole history h =
      let none_over : length history - cfg.history_max_len ≡ 0 = omega (arith, h) in
      rw none_over refl

  -- Records that are over the cap have no part in the estimate.
  estimate-last_of :
      (past past' : List (ReadingRecord R)) (days : ℤ) (rs : Readings)
      → last_of cfg.history_max_len past ≡ last_of cfg.history_max_len past'
      → estimate past days rs ≡ estimate past' days rs
  estimate-last_of past past' days [] h = refl
  estimate-last_of past past' days ((reading, now) ∷ rs) h =
      let cap = cfg.history_max_len in
      let r = record_of reading now in
      let same : last_of cap (past ++ r ∷ []) ≡ last_of cap (past' ++ r ∷ []) =
        sym (last_of-append cap past (r ∷ []))
        ∙ ap (λ l. last_of cap (l ++ r ∷ [])) h
        ∙ last_of-append cap past' (r ∷ []) in
      let days_of : List (ReadingRecord R) → ℤ =
        λ l. unwrap_or (days_left F parse_ts l cfg.calibration.full_dist) days in
      ap (λ l. estimate (past ++ r ∷ []) (days_of l) rs) same
      ∙ estimate-last_of (past ++ r ∷ []) (past' ++ r ∷ []) _ rs same

  pub grown_by_one :
      (rt rt1 : Runtime R) (reading : Reading R) (now : Str) {bat : ℤ}
      → percent F default_points reading.battery_mv ≡ some bat
      → Applied F parse_ts rt cfg reading now bat rt1
      → rt1.history ≡ last_of cfg.history_max_len (rt.history ++ record_of reading now ∷ [])
  grown_by_one rt rt1 reading now {bat} eq a =
      let cap = cfg.history_max_len in
      let pushed : Option ℤ → List (ReadingRecord R) = λ o.
        rt.history
        ++ (record { ts = now; lvl = reading.level_cm; bat = unwrap_or o (pos 0) }) ∷ [] in
      a.history
      ∙ ap (λ (n : ℕ). drop (n - cap) (pushed (some bat)))
          (sym (
            length-append rt.history
              ((record { ts = now; lvl = reading.level_cm; bat = bat }) ∷ [])))
      ∙ ap (λ o. last_of cap (pushed o)) (sym eq)

  -- One more record in front of the others.
  pub grown :
      (rt rt1 : Runtime R) (reading : Reading R) (now : Str) (rs : Readings)
      {history2 : List (ReadingRecord R)}
      → rt1.history ≡ last_of cfg.history_max_len (rt.history ++ record_of reading now ∷ [])
      → history2 ≡ last_of cfg.history_max_len (rt1.history ++ records rs)
      → history2 ≡ last_of cfg.history_max_len (rt.history ++ records ((reading, now) ∷ rs))
  grown rt rt1 reading now rs last k =
      let cap = cfg.history_max_len in
      let r = record_of reading now in
      k
      ∙ ap (λ l. last_of cap (l ++ records rs)) last
      ∙ last_of-append cap (rt.history ++ r ∷ []) (records rs)
      ∙ ap (last_of cap) (append_assoc rt.history (r ∷ []) (records rs))

  pub estimate-step :
      (rt rt1 : Runtime R) (reading : Reading R) (now : Str) (rs : Readings) {bat : ℤ}
      → Applied F parse_ts rt cfg reading now bat rt1
      → rt1.history ≡ last_of cfg.history_max_len (rt.history ++ record_of reading now ∷ [])
      → estimate rt1.history rt1.current.days_left rs
        ≡ estimate rt.history rt.current.days_left ((reading, now) ∷ rs)
  estimate-step rt rt1 reading now rs a last =
      let seen = rt.history ++ record_of reading now ∷ [] in
      let days_of : List (ReadingRecord R) → ℤ =
        λ l. unwrap_or (days_left F parse_ts l cfg.calibration.full_dist) rt.current.days_left in
      ap (λ d. estimate rt1.history d rs) (a.days ∙ ap days_of last)
      ∙ estimate-last_of rt1.history seen _ rs (fits_whole rt1.history a.capped ∙ last)

  abbrev IsEmptied : Option (Runtime R) → Type 0
  IsEmptied none = Unit
  IsEmptied (some rt) = rt.current.lst_empty ≡ rt.lst_empty

  -- Behind a reading the state has the baseline of the runtime.
  pub emptied :
      (rt : Runtime R) (rs : Readings) (rt' : Runtime R)
      → rt.current.lst_empty ≡ rt.lst_empty
      → apply_readings rt rs ≡ some rt'
      → rt'.current.lst_empty ≡ rt'.lst_empty
  unfolding apply_readings
  emptied rt [] rt' h e = subst {A = Option (Runtime R)} IsEmptied {x = some rt} {y = some rt'} e h
  emptied rt ((reading, now) ∷ rs) rt' h e =
      let (bat, eq) = default-percent F reading.battery_mv in
      let (rt1, step, a) = apply_reading-Applied F parse_ts rt cfg default_points reading now eq in
      emptied rt1 rs rt' a.emptied_at (sym (ap (λ o. o >>= λ r. apply_readings r rs) step) ∙ e)
