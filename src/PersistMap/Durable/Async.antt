-- ===== src/PersistMap/Durable/Async.antt =====
-- `SetAsync` and `DeleteAsync` keep a map durable: they mark their key dirty.
use mathlib.Core.Path.{subst}
use go_persist.Base.{
  sym, append-nil, [], ◌≡◌, refl, ◌∙◌, false, some, List, ◌++◌, Bytes, arith, equal, equal_iff,
  Bool-cases, inl, inr,
}
use go_persist.Env.XsyncMap.{XsyncMap}
use go_persist.Env.Json.{Json}
use go_persist.Record.{buffer_size}
use go_persist.Record.Entry.{Entry, IsReadable}
use go_persist.Wal.Writes.{nothing}
use go_persist.State.{PersistMap, Store}
use go_persist.PersistMap.{is_some, set_async, delete_async}
use go_persist.PersistMap.Durable.{Durable, Loggable, InLogs, values-store, values-delete}
use go_persist.PersistMap.Durable.Grown.{Grown}

pub deletable :
    {key line : Bytes}
    → IsReadable buffer_size (Entry.set key line)
    → IsReadable buffer_size (Entry.delete key)
deletable h = record {
  key_ne_nil = h.key_ne_nil;
  key_no_lf = h.key_no_lf;
  value_no_lf = tt;
  key_fits = h.key_fits;
  value_fits = omega arith;
}

module _ ⦃maps : XsyncMap⦄ ⦃json : Json⦄ where
  open maps use {
    load, store, delete, compute, load-store, load-delete, compute_keep, compute_remove,
  }
  open json use {Value}

  module _ {pm : PersistMap} {s : Store} (d : Durable pm s) where
    mark_logs :
        (m : maps.Map Value) (key : Bytes)
        → ((j : Bytes) → equal key j ≡ false → load m j ≡ load pm.data_map j)
        → (es : List Entry) → InLogs pm es
        → InLogs (record pm { data_map = m; dirty = store pm.dirty key tt }) es
    mark_logs m key same_elsewhere es held j clean = elim (Bool-cases (equal key j)) [
      | inl same ↦ cc (rw (load-store pm.dirty key tt j, same) at clean)
      | inr other ↦
          same_elsewhere j other ∙ held j (rw (load-store pm.dirty key tt j, other) at clean)
    ]

    -- A key that is marked dirty is no longer claimed to be in the log.
    mark_dirty :
        (m : maps.Map Value) (key : Bytes)
        → IsReadable buffer_size (Entry.delete (pm.prefix ++ key))
        → ((j : Bytes) → equal key j ≡ false → load m j ≡ load pm.data_map j)
        → ((j : Bytes) (w : Value) → load m j ≡ some w → Loggable pm.value_type pm.prefix j w)
        → Grown d.entries pm s (record pm { data_map = m; dirty = store pm.dirty key tt }) s
    mark_dirty m key fits same_elsewhere values = record {
      typed = refl;
      prefixed = refl;
      at_path = refl;
      added = [];
      extends = sym (append-nil d.entries);
      own = tt;
      writes = nothing;
      logs = λ l held.
          subst (InLogs (record pm { data_map = m; dirty = store pm.dirty key tt }))
            (sym (append-nil l)) (mark_logs m key same_elsewhere l held);
      durable = record {
        entries = d.entries;
        log = d.log;
        in_log = mark_logs m key same_elsewhere d.entries d.in_log;
        values = values;
        dirty_fits = λ j dirty. elim (Bool-cases (equal key j)) [
          | inl same ↦
              subst (λ k. IsReadable buffer_size (Entry.delete (pm.prefix ++ k)))
                ((equal_iff key j).0 same) fits
          | inr other ↦
              d.dirty_fits j (λ clean. dirty (load-store pm.dirty key tt j ∙ rw other clean))
        ];
      };
    }

    pub set_async-Grown :
        (key : Bytes) (v : Value)
        → Loggable pm.value_type pm.prefix key v
        → Grown d.entries pm s (set_async key v pm) s
    unfolding set_async
    set_async-Grown key v l =
        mark_dirty (store pm.data_map key v) key (deletable l.fits)
          (λ j other. rw (load-store pm.data_map key v j, other))
          (values-store (Loggable pm.value_type pm.prefix) pm.data_map key v d.values l)

    -- `SetAsync` of a value whose record can be read back keeps a map durable, beside an unchanged
    -- store.
    pub set_async-Durable :
        (key : Bytes) (v : Value)
        → Loggable pm.value_type pm.prefix key v
        → Durable (set_async key v pm) s
    set_async-Durable key v l = (set_async-Grown key v l).durable

    pub delete_async_lem :
        (key : Bytes)
        → delete_async key pm ≡ (
          is_some (load pm.data_map key),
          record pm { data_map = delete pm.data_map key; dirty = store pm.dirty key tt },
        )
    unfolding delete_async
    delete_async_lem key = rw (compute_remove pm.data_map key _ false refl)

    pub delete_async-Grown :
        (key : Bytes)
        → IsReadable buffer_size (Entry.delete (pm.prefix ++ key))
        → Grown d.entries pm s (delete_async key pm).1 s
    delete_async-Grown key fits = rw (delete_async_lem key) (
        mark_dirty (delete pm.data_map key) key fits
          (λ j other. rw (load-delete pm.data_map key j, other))
          (values-delete (Loggable pm.value_type pm.prefix) pm.data_map key d.values))

    -- `DeleteAsync` of a key whose delete record can be read back keeps a map durable, beside an
    -- unchanged store.
    delete_async-Durable :
        (key : Bytes)
        → IsReadable buffer_size (Entry.delete (pm.prefix ++ key))
        → Durable (delete_async key pm).1 s
    delete_async-Durable key fits = (delete_async-Grown key fits).durable
