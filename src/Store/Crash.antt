-- ===== src/Store/Crash.antt =====
-- A save of `JsonFileStore` that may stop at any call, and the load after it.
use aquilo_offline.Base.{
  lengths, ℕ, ◌≡◌, ◌≢◌, refl, ap, arith, true, false, some, List, ◌++◌, Str, codes, bytes_eq,
  bytes_eq_refl, bytes_eq-false, length, ◌⊎◌, inl, inr, Option-cases,
}
use aquilo_offline.Server.Runtime.{PersistedState, found}
use aquilo_offline.Store.{
  Files, put, Fault, no_fault, at_create_dir, at_create, at_sync, at_rename, at_write, Codec,
  new_store, replace, load, save,
}

-- The temp file is another file than the target.
pub tmp-ne-path : (path : Str) → (new_store path).tmp ≢ (new_store path).path
unfolding new_store
tmp-ne-path path e = grind (arith, lengths, ap (λ (p : Str). length p) e)

tmp-path_false : (path : Str) → bytes_eq path (path ++ codes ".tmp") ≡ false
tmp-path_false path =
    bytes_eq-false (λ e. absurd (grind (arith, lengths, ap (λ (p : Str). length p) e)))

module _ {R : Type 0} (C : Codec R) (path : Str) (fs : Files) (state : PersistedState R) where
  -- The codec reads back what it wrote of this state.
  abbrev pub Reads : Type 0
  Reads = (bytes : List ℕ) → C.to_vec_pretty state ≡ some bytes → C.from_slice bytes ≡ some state

  stopped :
      (fault : Fault) (bytes : List ℕ)
      → C.from_slice bytes ≡ some state
      → ((replace (new_store path) fs fault bytes).1 ≡ false)
          × (load C (new_store path) (replace (new_store path) fs fault bytes).0
              ≡ load C (new_store path) fs)
        ⊎ ((replace (new_store path) fs fault bytes).1 ≡ true)
          × (load C (new_store path) (replace (new_store path) fs fault bytes).0 ≡ found state)
  unfolding load replace new_store put
  stopped no_fault bytes h = inr (refl, rw (tmp-path_false path, bytes_eq_refl path, h))
  stopped at_create_dir bytes h = inl (refl, refl)
  stopped at_create bytes h = inl (refl, refl)
  stopped at_sync bytes h = inl (refl, rw (tmp-path_false path))
  stopped at_rename bytes h = inl (refl, rw (tmp-path_false path))
  stopped (at_write n) bytes h = inl (refl, rw (tmp-path_false path))

  -- A save that is stopped at any call, after any part of the bytes, leaves files from which the old
  -- state is loaded as before; one that succeeds leaves the new state, if the codec reads back what
  -- it wrote. Nothing else is ever loaded.
  pub save_atomic :
      (fault : Fault)
      → Reads
      → ((save C (new_store path) fault fs state).1 ≡ false)
          × (load C (new_store path) (save C (new_store path) fault fs state).0
              ≡ load C (new_store path) fs)
        ⊎ ((save C (new_store path) fault fs state).1 ≡ true)
          × (load C (new_store path) (save C (new_store path) fault fs state).0 ≡ found state)
  unfolding save load replace new_store put
  save_atomic fault reads = elim (Option-cases (C.to_vec_pretty state)) [
    | inl e ↦ rw e (inl (refl, refl))
    | inr (bytes, e) ↦ rw e (stopped fault bytes (reads bytes e))
  ]

  -- A save that is not stopped succeeds, where the state serialises.
  pub save_succeeds :
      {bytes : List ℕ}
      → C.to_vec_pretty state ≡ some bytes
      → (save C (new_store path) no_fault fs state).1 ≡ true
  unfolding save replace
  save_succeeds e = rw e
