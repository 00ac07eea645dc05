-- ===== src/Server/Restart.antt =====
-- A restart of the server: what `load_runtime` finds after `persist` over the file store.
use aquilo_offline.Base.{◌≡◌, refl, ap, ◌∙◌, true, false, Str, ◌⊎◌, inl, inr}
use aquilo_offline.Server.Config.{Config}
use aquilo_offline.Server.Runtime.{
  Runtime, found, runtime_of, load_runtime, persist, snapshot, or_if_empty,
}
use aquilo_offline.Store.{Files, Fault, Codec, new_store, save, file_store}
use aquilo_offline.Store.Crash.{Reads, save_atomic}

module _ {R : Type 0} where
  -- The runtime that a snapshot stands for: an unknown `lstEmpty` is read from the config again.
  abbrev pub settled : Config R → Runtime R → Runtime R
  settled cfg rt = record rt { lst_empty = or_if_empty rt.lst_empty cfg.state.lst_empty }

  pub runtime_of-snapshot :
      (cfg : Config R) (rt : Runtime R) (now : Str)
      → runtime_of cfg now (found (snapshot cfg rt)) ≡ settled cfg rt
  unfolding runtime_of snapshot
  runtime_of-snapshot cfg rt now = refl

  -- A server that stops at any point of a save, and starts again, has the runtime that was being
  -- saved (an empty `lstEmpty` taken from the config), or the one that the files held before; if the
  -- save was reported as done it is the saved one. It never starts from a mixture or from the config
  -- seed, unless the files before the save made it start so.
  pub restart :
      (C : Codec R) (path : Str) (fs : Files) (cfg : Config R) (rt : Runtime R) (now : Str)
      (fault : Fault)
      → Reads C path fs (snapshot cfg rt)
      → ((save C (new_store path) fault fs (snapshot cfg rt)).1 ≡ false)
          × (load_runtime
                (file_store C (new_store path) fault)
                cfg
                (persist (file_store C (new_store path) fault) fs cfg rt)
                now
              ≡ load_runtime (file_store C (new_store path) fault) cfg fs now)
        ⊎ ((save C (new_store path) fault fs (snapshot cfg rt)).1 ≡ true)
          × (load_runtime
                (file_store C (new_store path) fault)
                cfg
                (persist (file_store C (new_store path) fault) fs cfg rt)
                now
              ≡ settled cfg rt)
  unfolding load_runtime persist
  restart C path fs cfg rt now fault reads =
      elim (save_atomic C path fs (snapshot cfg rt) fault reads) [
        | inl (stopped, old) ↦ inl (stopped, ap (runtime_of cfg now) old)
        | inr (done, new) ↦ inr (done, ap (runtime_of cfg now) new ∙ runtime_of-snapshot cfg rt now)
      ]
