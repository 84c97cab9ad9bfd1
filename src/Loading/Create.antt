-- ===== src/Loading/Create.antt =====
-- Opening a store on a file that is not there, and the maps of a new store.
use go_persist.Base.{ℕ, ◌≡◌, refl, false, none, [], Bytes, equal_refl}
use go_persist.Env.XsyncMap.{XsyncMap}
use go_persist.Env.Json.{Json}
use go_persist.Env.Os
use go_persist.Env.Os.{Os, File, at}
use go_persist.Key.{validate_key}
use go_persist.Loading.Dispatch.{Tracks}
use go_persist.Loading.Restore.{open_file_lem}
use go_persist.Loading.{new_store, new_map, map_of, open_file, open_store}
use go_persist.PersistMap.Durable.{no_contents}
use go_persist.Result.{ok}
use go_persist.State.{PersistMap, Store}
use go_persist.Wal.{wal_header}

-- A file that holds the header line, which is on the disk.
abbrev header_file : File
header_file = record { content = wal_header; synced = 13 }

abbrev pub created : Bytes → Os → Os
created path os =
    Os.put path header_file
      (Os.put path (record { content = wal_header; synced = 0 }) (Os.put path Os.new_file os))

module _ ⦃maps : XsyncMap⦄ ⦃json : Json⦄ where
  open maps use {store, empty, load, load-empty, load-store}
  open json use {GoType}

  open_file_missing :
      (path : Bytes) (os : Os)
      → os.files path ≡ none
      → os.faults ≡ []
      → open_file path os ≡ (ok tt, created path os)
  unfolding open_file Os.open_append Os.attempt Os.write Os.sync
  open_file_missing path os missing quiet = rw (quiet, missing) (simp (equal_refl path))

  -- `Open` writes the header of a missing file, and then does what it does on the new file.
  pub open_store-created :
      (ahead : ℕ) (path : Bytes) (s : Store)
      → s.loaded ≡ false
      → s.os.files path ≡ none
      → s.os.faults ≡ []
      → open_store ahead path s ≡ open_store ahead path (record s { os = created path s.os })
  unfolding open_store
  open_store-created ahead path s closed missing quiet =
      simp (closed, open_file_missing path s.os missing quiet)
        (simp (
          open_file_lem path (created path s.os) [] 13
            (Os.files-put_self path header_file (
              Os.put path (record { content = wal_header; synced = 0 })
                (Os.put path Os.new_file s.os)))
            quiet))

  -- `New`, then `Map`.
  abbrev pub with_map : GoType → Bytes → Os → Store
  with_map t name os = record (new_store os) { persist_maps = store empty name (new_map t name) }

  pub map_of_lem :
      (t : GoType) (name : Bytes) (os : Os)
      → validate_key name ≡ none
      → map_of t name (new_store os) ≡ (ok tt, with_map t name os)
  unfolding map_of new_store
  map_of_lem t name os valid = rw (valid, load-empty (Unit {0}) name, load-empty PersistMap name)

  pub with_map-Tracks :
      (t : GoType) (name : Bytes) (os : Os) → Tracks name t no_contents (with_map t name os)
  unfolding new_store
  with_map-Tracks t name os = record {
    pm = new_map t name;
    registered = rw (load-store empty name (new_map t name) name, equal_refl name);
    typed = refl;
    prefixed = refl;
    clean = load-empty (Unit {0});
    holds = λ key. load-empty json.Value key;
  }
