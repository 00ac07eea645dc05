-- ===== src/Store.antt =====
-- `JsonFileStore` of aquilo-store/src/lib.rs over a file system that may fail or stop at any step.
-- The file system maps each path to what reading it gives. serde_json's `to_vec_pretty` and
-- `from_slice` are parameters.
pub mod Crash
pub mod Elsewhere
use aquilo_offline.Base.{
  ℕ, Bool, true, false, Option, none, some, [], ◌∷◌, ◌++◌, Bytes, Str, codes, bytes_eq, ends_with,
  take, if◌then◌else◌,
}
use aquilo_offline.Server.Runtime.{PersistedState, Loaded, found, absent, failed, Store}

-- What `fs::read` gives: no file, the error of a file that cannot be read, or its bytes.
pub data Entry : Type 0 where
  missing unreadable : Entry
  holds : Bytes → Entry

abbrev pub Files : Type 0
Files = Str → Entry

unfoldable pub put : Files → Str → Entry → Files
put fs path content p = if bytes_eq p path then content else fs p

-- Where a save stops: nowhere, or at the named call, for `write_all` after some of the bytes. Whether
-- the call returned an error or the machine stopped there, the files are the same. The rename takes
-- effect or it does not: a stop behind it, before the save returns, is not among these.
pub data Fault : Type 0 where
  no_fault at_create_dir at_create at_sync at_rename : Fault
  at_write : ℕ → Fault

pub record Codec (R : Type 0) : Type 0 where
  pub to_vec_pretty : PersistedState R → Option Bytes
  pub from_slice : Bytes → Option (PersistedState R)

pub record JsonFileStore : Type 0 where
  pub path : Str
  pub tmp : Str

-- `JsonFileStore::new`
unfoldable pub new_store : Str → JsonFileStore
new_store path = record { path = path; tmp = path ++ codes ".tmp" }

-- `dir.join("state.json")`
unfoldable pub join : Str → Str → Str
join [] name = name
join (c ∷ dir) name =
    if ends_with (c ∷ dir) (codes "/") then (c ∷ dir) ++ name else (c ∷ dir) ++ (b'/' ∷ name)

-- `JsonFileStore::in_dir`
unfoldable pub in_dir : Str → JsonFileStore
unfolding new_store join
in_dir dir = new_store (join dir (codes "state.json"))

-- `File::create`, `write_all`, `sync_all`, `rename`: the temp file is cut to nothing, filled, and
-- then stands in the place of the target.
unfoldable pub replace : JsonFileStore → Files → Fault → Bytes → Files × Bool
unfolding put
replace st fs at_create_dir json = (fs, false)
replace st fs at_create json = (fs, false)
replace st fs (at_write n) json = (put fs st.tmp (holds (take n json)), false)
replace st fs at_sync json = (put fs st.tmp (holds json), false)
replace st fs at_rename json = (put fs st.tmp (holds json), false)
replace st fs no_fault json = (put (put fs st.path (holds json)) st.tmp missing, true)

module _ {R : Type 0} (C : Codec R) where
  open C use {to_vec_pretty, from_slice}

  abbrev pub decoded : Entry → Loaded R
  decoded missing = absent
  decoded unreadable = failed
  decoded (holds bytes) = elim (from_slice bytes) [ none ↦ failed | some p ↦ found p ]

  unfoldable pub load : JsonFileStore → Files → Loaded R
  load st fs = decoded (fs st.path)

  abbrev replace_with : JsonFileStore → Files → Fault → Option Bytes → Files × Bool
  replace_with st fs fault none = (fs, false)
  replace_with st fs fault (some json) = replace st fs fault json

  -- A fault in creating the folder comes before the state is serialised.
  unfoldable pub save : JsonFileStore → Fault → Files → PersistedState R → Files × Bool
  unfolding replace
  save st fault fs state = replace_with st fs fault (to_vec_pretty state)

  -- The file store as a `Store`, when its saves stop at `fault`.
  abbrev pub file_store : JsonFileStore → Fault → Store Files R
  file_store st fault = record { load = load st; save = save st fault }
