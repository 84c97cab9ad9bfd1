-- ===== src/PersistMap/Durable/Calls.antt =====
-- `Set` and `Delete` keep a map durable.
use go_persist.Base.{
  ◌≡◌, refl, sym, ap, ◌∙◌, Bool, false, List, [], ◌∷◌, ◌++◌, Bytes, equal, Bool-cases, inl, inr,
}
use go_persist.Env.XsyncMap.{XsyncMap, Outcome, keep, remove}
use go_persist.Env.Json.{Json}
use go_persist.Record.{buffer_size}
use go_persist.Record.Entry.{Entry, IsReadable}
use go_persist.Result.{Result}
use go_persist.State.{PersistMap, Store}
use go_persist.Wal.Effects.{
  HasLog-orphans, logged, logged-HasLog, logged_lem, behind, write_lem, delete_key_lem,
}
use go_persist.Wal.Writes.{set-Writes, delete-Writes}
use go_persist.PersistMap.{is_some, set, delete_now, report}
use go_persist.PersistMap.Durable.{
  replay-set, replay-delete, values-store, values-delete, Loggable, InLogs, Durable,
}
use go_persist.PersistMap.Durable.Grown.{Grown}

module _ ⦃maps : XsyncMap⦄ ⦃json : Json⦄ where
  open maps use {
    load, store, delete, compute, load-store, load-delete, compute_keep, compute_remove,
  }
  open json use {GoType, Value, marshal, unmarshal}

  module _ {pm : PersistMap} {s : Store} (d : Durable pm s) where
    pub set_lem :
        (key : Bytes) (v : Value) (l : Loggable pm.value_type pm.prefix key v)
        → set key v pm s ≡ (
          record pm { data_map = store pm.data_map key v },
          logged (Entry.set (pm.prefix ++ key) l.line) s,
        )
    unfolding set
    set_lem key v l = rw (
        compute_keep pm.data_map key _ s (
          ap
            (λ (r : Result (Unit {0}) × Store).
              let p : Outcome Value × Store = (keep v, report r) in p)
            (write_lem d.log (pm.prefix ++ key) v l.valid l.json_of)))

    set_logs :
        (key : Bytes) (v : Value) (l : Loggable pm.value_type pm.prefix key v) (es : List Entry)
        → InLogs pm es
        → InLogs
            (record pm { data_map = store pm.data_map key v })
            (es ++ Entry.set (pm.prefix ++ key) l.line ∷ [])
    set_logs key v l es held j clean = elim (Bool-cases (equal key j)) [
      | inl same ↦
          rw (load-store pm.data_map key v j, replay-set es pm.prefix key l.line j, same)
            (sym l.reads_back)
      | inr other ↦
          rw (load-store pm.data_map key v j, replay-set es pm.prefix key l.line j, other)
            (held j clean)
    ]

    pub set-Grown :
        (key : Bytes) (v : Value)
        → Loggable pm.value_type pm.prefix key v
        → Grown d.entries pm s (set key v pm s).0 (set key v pm s).1
    unfolding logged
    set-Grown key v l = rw (set_lem key v l) (record {
      typed = refl;
      prefixed = refl;
      at_path = refl;
      durable = record {
        entries = d.entries ++ Entry.set (pm.prefix ++ key) l.line ∷ [];
        log = logged-HasLog d.log _ l.fits;
        in_log = set_logs key v l d.entries d.in_log;
        values = values-store (Loggable pm.value_type pm.prefix) pm.data_map key v d.values l;
        dirty_fits = d.dirty_fits;
      };
      added = Entry.set (pm.prefix ++ key) l.line ∷ [];
      extends = refl;
      own = (((key, refl), (v, l.reads_back)), tt);
      writes = set-Writes d.log (pm.prefix ++ key) v l.valid l.json_of;
      logs = set_logs key v l;
    })

    pub set-Durable :
        (key : Bytes) (v : Value)
        → Loggable pm.value_type pm.prefix key v
        → Durable (set key v pm s).0 (set key v pm s).1
    set-Durable key v l = (set-Grown key v l).durable

    -- `Set` on a durable map: its store is open on a log whose records can all be read back and
    -- which holds what the map holds for every key that is not dirty; every value has a valid key
    -- and a JSON text that decodes to it and whose record can be read back, and the delete record
    -- of every dirty key can be read back; and no call of the operating system fails. The key is
    -- valid, and the value has a JSON text that decodes to it and whose record can be read back.
    -- The map has the value under the key and is otherwise as before; the file has the old log and
    -- one more entry, of the key with the prefix of the map and that text, and is synced no
    -- further; the record is counted, and captured if a Shrink is running; nothing else of the
    -- store has changed, and the map is still durable.
    pub set-Appended :
        (key : Bytes) (v : Value)
        → (l : Loggable pm.value_type pm.prefix key v)
        → ((set key v pm s).0 ≡ record pm { data_map = store pm.data_map key v })
          × ((set key v pm s).1 ≡ behind d.log (Entry.set (pm.prefix ++ key) l.line))
          × Durable (set key v pm s).0 (set key v pm s).1
    set-Appended key v l =
        let p = set_lem key v l in
        (
          ap (λ (x : PersistMap × Store). x.0) p,
          ap (λ (x : PersistMap × Store). x.1) p ∙ logged_lem d.log _,
          set-Durable key v l,
        )

    pub delete_now_lem :
        (key : Bytes)
        → delete_now key pm s ≡ (
          is_some (load pm.data_map key),
          record pm { data_map = delete pm.data_map key },
          record (logged (Entry.delete (pm.prefix ++ key)) s) {
            orphan_records = delete s.orphan_records (pm.prefix ++ key);
          },
        )
    unfolding delete_now
    delete_now_lem key = rw (
        compute_remove pm.data_map key _ (false, s)
          (ap
            (λ (r : Result (Unit {0}) × Store).
              let p : Outcome Value × (Bool × Store) =
                (remove, (is_some (load pm.data_map key), report r)) in
              p)
            (delete_key_lem d.log (pm.prefix ++ key))))

    delete_logs :
        (key : Bytes) (es : List Entry)
        → InLogs pm es
        → InLogs
            (record pm { data_map = delete pm.data_map key })
            (es ++ Entry.delete (pm.prefix ++ key) ∷ [])
    delete_logs key es held j clean = elim (Bool-cases (equal key j)) [
      | inl same ↦ rw (load-delete pm.data_map key j, replay-delete es pm.prefix key j, same)
      | inr other ↦
          rw (load-delete pm.data_map key j, replay-delete es pm.prefix key j, other) (held j clean)
    ]

    pub delete_now-Grown :
        (key : Bytes)
        → IsReadable buffer_size (Entry.delete (pm.prefix ++ key))
        → Grown d.entries pm s (delete_now key pm s).1 (delete_now key pm s).2
    unfolding logged
    delete_now-Grown key fits = rw (delete_now_lem key) (record {
      typed = refl;
      prefixed = refl;
      at_path = refl;
      durable = record {
        entries = d.entries ++ Entry.delete (pm.prefix ++ key) ∷ [];
        log = HasLog-orphans (logged-HasLog d.log _ fits);
        in_log = delete_logs key d.entries d.in_log;
        values = values-delete (Loggable pm.value_type pm.prefix) pm.data_map key d.values;
        dirty_fits = d.dirty_fits;
      };
      added = Entry.delete (pm.prefix ++ key) ∷ [];
      extends = refl;
      own = ((key, refl), tt);
      writes = delete-Writes d.log (pm.prefix ++ key);
      logs = delete_logs key;
    })

    pub delete_now-Durable :
        (key : Bytes)
        → IsReadable buffer_size (Entry.delete (pm.prefix ++ key))
        → Durable (delete_now key pm s).1 (delete_now key pm s).2
    delete_now-Durable key fits = (delete_now-Grown key fits).durable

    -- `Delete` on a durable map: its store is open on a log whose records can all be read back and
    -- which holds what the map holds for every key that is not dirty; every value has a valid key
    -- and a JSON text that decodes to it and whose record can be read back, and the delete record
    -- of every dirty key can be read back; and no call of the operating system fails. The delete
    -- record of the key can be read back. It tells whether the map had the key; the map has it no
    -- more and is otherwise as before; the file has the old log and one more entry, a delete of
    -- the key with the prefix of the map, and is synced no further; the record is counted, and
    -- captured if a Shrink is running; the orphan of that key is gone, nothing else of the store
    -- has changed, and the map is still durable.
    pub delete_now-Appended :
        (key : Bytes)
        → IsReadable buffer_size (Entry.delete (pm.prefix ++ key))
        → ((delete_now key pm s).0 ≡ is_some (load pm.data_map key))
          × ((delete_now key pm s).1 ≡ record pm { data_map = delete pm.data_map key })
          × ((delete_now key pm s).2 ≡ record (behind d.log (Entry.delete (pm.prefix ++ key))) {
            orphan_records = delete s.orphan_records (pm.prefix ++ key);
          })
          × Durable (delete_now key pm s).1 (delete_now key pm s).2
    delete_now-Appended key fits =
        let p = delete_now_lem key in
        (
          ap (λ (x : Bool × PersistMap × Store). x.0) p,
          ap (λ (x : Bool × PersistMap × Store). x.1) p,
          ap (λ (x : Bool × PersistMap × Store). x.2) p
              ∙ ap
                  (λ (x : Store). record x {
                    orphan_records = delete s.orphan_records (pm.prefix ++ key);
                  })
                  (logged_lem d.log _),
          delete_now-Durable key fits,
        )
