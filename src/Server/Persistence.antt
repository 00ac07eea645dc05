-- ===== src/Server/Persistence.antt =====
-- The file store of aquilo-store as the store of the serve loop.
use aquilo_offline.Base.{◌≡◌, true, Str, is_some, Option-cases, inl, inr}
use aquilo_offline.Server.Handler.{Env}
use aquilo_offline.Server.History.{IsDurable}
use aquilo_offline.Server.Runtime.{PersistedState}
use aquilo_offline.Store.{Files, Codec, no_fault, new_store, file_store}
use aquilo_offline.Store.Crash.{Reads, save_atomic, save_succeeds}

-- The file store without faults is durable, over a codec that serialises every state and reads it
-- back.
pub file_store-IsDurable :
    {V R : Type 0} (e : Env Files V R) (C : Codec R) (path : Str)
    → ((fs : Files) (p : PersistedState R) → Reads C path fs p)
    → ((p : PersistedState R) → is_some (C.to_vec_pretty p) ≡ true)
    → IsDurable (record e { storage = file_store C (new_store path) no_fault })
file_store-IsDurable e C path reads serialises = record {
  reads = λ fs p. elim (Option-cases (C.to_vec_pretty p)) [
    | inl n ↦ let lost = serialises p in cc
    | inr (bytes, s) ↦ elim (save_atomic C path fs p no_fault (reads fs p)) [
      | inl (stopped, old) ↦ let succeeded = save_succeeds C path fs p s in cc
      | inr (succeeded, new) ↦ new
    ]
  ];
}
