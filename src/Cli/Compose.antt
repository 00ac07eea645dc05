-- ===== src/Cli/Compose.antt =====
-- The loop over the arguments of aquilo-server/src/main.rs.
use aquilo_offline.Base.{◌⊎◌, ◌≡◌, refl, List, [], ◌∷◌, ◌++◌, Str, Bool-cases, inl, inr}
use aquilo_offline.Cli.{
  Args, ArgError, ParseArgs, ok, err, classify, set_flag, takes_value, parse_loop,
}

ParseArgs-cases : (r : ParseArgs) → ((x : ArgError) × (r ≡ err x)) ⊎ ((a : Args) × (r ≡ ok a))
ParseArgs-cases (ok a) = inr (a, refl)
ParseArgs-cases (err x) = inl (x, refl)

-- Arguments that are read without an error leave the options that the arguments behind them start
-- from: they are read one after the other, and a flag that comes again replaces its value.
parse_loop-append :
    (xs ys : List Str) (a b : Args)
    → parse_loop xs a ≡ ok b
    → parse_loop (xs ++ ys) a ≡ parse_loop ys b
unfolding parse_loop
parse_loop-append [] ys a b h = cc
parse_loop-append (x ∷ []) [] a b h = h
parse_loop-append (x ∷ []) (y ∷ ys) a b h = elim (Bool-cases (takes_value (classify x))) [
  | inl e ↦ cc (rw (e, parse_loop) at h)
  | inr e ↦ let h' = rw (e, parse_loop) at h in rw (e, parse_loop, h') refl
]
parse_loop-append (x ∷ v ∷ rest) ys a b h = elim (Bool-cases (takes_value (classify x))) [
  | inl e ↦ elim (ParseArgs-cases (set_flag (classify x) v a)) [
    | inl (error, e') ↦ cc (rw (e, parse_loop, e') at h)
    | inr (a', e') ↦
        rw (e, parse_loop, e') (parse_loop-append rest ys a' b (rw (e, parse_loop, e') at h))
  ]
  | inr e ↦ elim (ParseArgs-cases (set_flag (classify x) x a)) [
    | inl (error, e') ↦ cc (rw (e, parse_loop, e') at h)
    | inr (a', e') ↦
        rw (e, parse_loop, e') (parse_loop-append (v ∷ rest) ys a' b (rw (e, parse_loop, e') at h))
  ]
]
