-- ===== src/Store/Elsewhere.antt =====
-- The files that a write or a save of JsonFileStore does not touch.
use aquilo_offline.Base.{◌≡◌, ◌≢◌, refl, Str, bytes_eq-false, bytes_eq_refl, inl, inr, Option-cases}
use aquilo_offline.Server.Runtime.{PersistedState}
use aquilo_offline.Store.{
  Entry, Files, put, Fault, no_fault, at_create_dir, at_create, at_sync, at_rename, at_write, Codec,
  JsonFileStore, replace, save,
}

pub put_same : (fs : Files) (path : Str) (x : Entry) → put fs path x path ≡ x
unfolding put
put_same fs path x = rw (bytes_eq_refl path) refl

pub put_elsewhere : (fs : Files) (path p : Str) (x : Entry) → p ≢ path → put fs path x p ≡ fs p
unfolding put
put_elsewhere fs path p x n = rw (bytes_eq-false n) refl

module _ {R : Type 0} (C : Codec R) where
  replace_elsewhere :
      (st : JsonFileStore) (fs : Files) (fault : Fault) (bytes p : Str)
      → p ≢ st.path
      → p ≢ st.tmp
      → (replace st fs fault bytes).0 p ≡ fs p
  unfolding replace put
  replace_elsewhere st fs no_fault bytes p n m = rw (bytes_eq-false n, bytes_eq-false m) refl
  replace_elsewhere st fs at_create_dir bytes p n m = refl
  replace_elsewhere st fs at_create bytes p n m = refl
  replace_elsewhere st fs at_sync bytes p n m = rw (bytes_eq-false m) refl
  replace_elsewhere st fs at_rename bytes p n m = rw (bytes_eq-false m) refl
  replace_elsewhere st fs (at_write k) bytes p n m = rw (bytes_eq-false m) refl

  -- A save touches no file but its own two.
  pub save_elsewhere :
      (st : JsonFileStore) (fault : Fault) (fs : Files) (state : PersistedState R) (p : Str)
      → p ≢ st.path
      → p ≢ st.tmp
      → (save C st fault fs state).0 p ≡ fs p
  unfolding save
  save_elsewhere st fault fs state p n m = elim (Option-cases (C.to_vec_pretty state)) [
    | inl e ↦ rw e refl
    | inr (bytes, e) ↦ rw e (replace_elsewhere st fs fault bytes p n m)
  ]
