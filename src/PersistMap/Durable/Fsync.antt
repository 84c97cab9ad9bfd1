-- ===== src/PersistMap/Durable/Fsync.antt =====
-- `SetFSync` and `DeleteFSync`: the log of the map is on the disk.
use mathlib.Core.Path.{subst}
use go_persist.Base.{
  [], ◌∷◌, sym, ◌≡◌, refl, ap, ◌∙◌, Bool, true, some, ◌++◌, Bytes, length, if◌then◌else◌, List,
}
use go_persist.Env.XsyncMap.{XsyncMap}
use go_persist.Env.Json.{Json}
use go_persist.Env.Os
use go_persist.Env.Os.{Os, File, at}
use go_persist.PersistMap.{set_fsync, delete_now, delete_fsync, sync_file, is_some}
use go_persist.PersistMap.Durable.{Durable, Loggable}
use go_persist.PersistMap.Durable.Calls.{set-Durable, delete_now-Durable, delete_now_lem, set_lem}
use go_persist.Record.Entry.{Entry, IsReadable, log_bytes}
use go_persist.Record.{buffer_size}
use go_persist.Result.{Result, ok, err, io_failed}
use go_persist.State.{PersistMap, Store}
use go_persist.Wal.Effects.{HasLog, HasLog-orphans, logged-HasLog}
use go_persist.Wal.{wal_header}

module _ ⦃maps : XsyncMap⦄ ⦃json : Json⦄ where
  open maps use {load, store, delete}
  open json use {Value}

  -- The file with these entries, of which a power failure takes nothing.
  abbrev pub flushed : List Entry → File
  flushed es = record {
    content = wal_header ++ log_bytes es;
    synced = length (wal_header ++ log_bytes es);
  }

  abbrev pub OnDisk : List Entry → Store → Type 0
  OnDisk es s = s.os.files s.path ≡ some (flushed es)

  abbrev flushed_store : List Entry → Store → Store
  flushed_store es s = record s { os = Os.put s.path (flushed es) s.os }

  sync_file_lem :
      {s : Store} {es : List Entry} → HasLog s es → sync_file s ≡ (ok tt, flushed_store es s)
  unfolding sync_file
  sync_file_lem {s} {es} h =
      ap
        (λ (x : Bool × Os).
          let p : Result (Unit {0}) × Store =
            (if x.0 then ok tt else err io_failed, record s { os = x.1 }) in
          p)
        (ap (λ f. Os.sync f s.os) h.handle ∙ Os.sync_no_faults s.path s.os h.stands h.no_faults)

  flushed_store-HasLog :
      {s : Store} {es : List Entry} → HasLog s es → HasLog (flushed_store es s) es
  flushed_store-HasLog {s} {es} h = record {
    is_loaded = h.is_loaded;
    handle = h.handle;
    no_faults = h.no_faults;
    synced = length (wal_header ++ log_bytes es);
    stands = Os.files-put_self s.path (flushed es) s.os;
    readable = h.readable;
  }

  -- What a successful fsync leaves beside a durable map.
  abbrev pub Flushed : PersistMap → Result (Unit {0}) × Store → Type 0
  Flushed pm x = (x.0 ≡ ok tt) × ((d : Durable pm x.1) × OnDisk d.entries x.1)

  sync_file-Flushed : {pm : PersistMap} {s : Store} → Durable pm s → Flushed pm (sync_file s)
  sync_file-Flushed {pm} {s} d = rw (sync_file_lem d.log) (
    refl,
    (
      record {
        entries = d.entries;
        log = flushed_store-HasLog d.log;
        in_log = d.in_log;
        values = d.values;
        dirty_fits = d.dirty_fits;
      },
      Os.files-put_self s.path (flushed d.entries) s.os,
    ),
  )

  sync_file-OnDisk : {s : Store} {es : List Entry} → HasLog s es → OnDisk es (sync_file s).1
  sync_file-OnDisk {s} {es} h = rw (sync_file_lem h) (Os.files-put_self s.path (flushed es) s.os)

  module _ {pm : PersistMap} {s : Store} (d : Durable pm s) (key : Bytes) where
    -- `SetFSync` of a value with a valid key and a JSON text that decodes to it and whose record
    -- can be read back, on a durable map: its store is open on a log whose records can all be read
    -- back and which holds what the map holds for every key that is not dirty; every value has a
    -- valid key and a JSON text that decodes to it and whose record can be read back, and the
    -- delete record of every dirty key can be read back; and no call of the operating system
    -- fails. It returns nil; the map has the value under the key and is otherwise as before, and
    -- is durable; the file has the old log and one more entry, of the key with the prefix of the
    -- map and that text, and all of it is on the disk.
    pub set_fsync-Flushed :
        (v : Value)
        → (l : Loggable pm.value_type pm.prefix key v)
        → Flushed (set_fsync key v pm s).1 ((set_fsync key v pm s).0, (set_fsync key v pm s).2)
          × ((set_fsync key v pm s).1 ≡ record pm { data_map = store pm.data_map key v })
          × OnDisk (d.entries ++ Entry.set (pm.prefix ++ key) l.line ∷ []) (set_fsync key v pm s).2
    unfolding set_fsync
    set_fsync-Flushed v l =
        let e = Entry.set (pm.prefix ++ key) l.line in
        let p = set_lem d key v l in
        (
          sync_file-Flushed (set-Durable d key v l),
          ap (λ (x : PersistMap × Store). x.0) p,
          subst (λ (x : Store). OnDisk (d.entries ++ e ∷ []) (sync_file x).1)
              (sym (ap (λ (x : PersistMap × Store). x.1) p))
              (sync_file-OnDisk (logged-HasLog d.log e l.fits)),
        )

    delete_fsync_there :
        is_some (load pm.data_map key) ≡ true
        → delete_fsync key pm s ≡ (
          (sync_file (delete_now key pm s).2).0,
          (delete_now key pm s).1,
          (sync_file (delete_now key pm s).2).1,
        )
    unfolding delete_fsync
    delete_fsync_there there =
        let existed : (delete_now key pm s).0 ≡ true =
          ap (λ (x : Bool × PersistMap × Store). x.0) (delete_now_lem d key) ∙ there in
        rw existed

    -- `DeleteFSync` of a key that the map has, and whose delete record can be read back, on a
    -- durable map: its store is open on a log whose records can all be read back and which holds
    -- what the map holds for every key that is not dirty; every value has a valid key and a JSON
    -- text that decodes to it and whose record can be read back, and the delete record of every
    -- dirty key can be read back; and no call of the operating system fails. It returns nil; the
    -- map has the key no more and is otherwise as before, and is durable; the file has the old log
    -- and one more entry, a delete of the key with the prefix of the map, and all of it is on the
    -- disk.
    pub delete_fsync-Flushed :
        is_some (load pm.data_map key) ≡ true
        → IsReadable buffer_size (Entry.delete (pm.prefix ++ key))
        → Flushed (delete_fsync key pm s).1 ((delete_fsync key pm s).0, (delete_fsync key pm s).2)
          × ((delete_fsync key pm s).1 ≡ record pm { data_map = delete pm.data_map key })
          × OnDisk (d.entries ++ Entry.delete (pm.prefix ++ key) ∷ []) (delete_fsync key pm s).2
    delete_fsync-Flushed there fits =
        let e = Entry.delete (pm.prefix ++ key) in
        let p = delete_now_lem d key in
        rw (delete_fsync_there there) (
          sync_file-Flushed (delete_now-Durable d key fits),
          ap (λ (x : Bool × PersistMap × Store). x.1) p,
          subst (λ (x : Store). OnDisk (d.entries ++ e ∷ []) (sync_file x).1)
              (sym (ap (λ (x : Bool × PersistMap × Store). x.2) p))
              (sync_file-OnDisk (HasLog-orphans (logged-HasLog d.log e fits))),
        )
