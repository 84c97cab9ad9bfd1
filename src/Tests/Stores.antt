-- ===== src/Tests/Stores.antt =====
-- The store beside its maps, at concrete inputs.
use go_persist.Base.{◌≡◌, refl, ◌⊎◌, none, some, [], ◌∷◌, Bytes, codes, equal, ◌++◌, length, false}
use go_persist.Env.Os
use go_persist.Env.XsyncMap.{lookup}
use go_persist.Env.XsyncMap.Assoc.{assoc_map}
use go_persist.Key.{validate_key}
use go_persist.Orphans.{set_value, get_value}
use go_persist.Orphans.Values.{get_value-set_value}
use go_persist.PersistMap.{set_fsync, delete_fsync}
use go_persist.PersistMap.Durable.Async.{deletable}
use go_persist.PersistMap.Durable.Fsync.{Flushed, OnDisk, set_fsync-Flushed, delete_fsync-Flushed}
use go_persist.Record.{set_record}
use go_persist.Result.{ok, err, Error}
use go_persist.Record.Entry.{Entry, log_bytes}
use go_persist.Shrink.{shrink}
use go_persist.Shrink.Alone.{idle, compacted, shrink-Swapped}
use go_persist.Shrink.Swap.{Swapped}
use go_persist.State.{Store}
use go_persist.Tests.Codec.{codec, marshal, string, number, text}
use go_persist.Tests.Fixtures.{
  path, disk_of, running, users, users_with_a, users-Durable, users_with_a-Durable, digit_Loggable,
  a_is_3, a_is_3-IsReadable,
}
use go_persist.Wal.{write, wal_header}
use go_persist.Wal.Outcomes.{Logs, Breaks, Rejected, write_outcome}

-- The next write fails behind three bytes.
abbrev failing : Store
failing = record (running []) { os = record (disk_of []) { faults = some 3 ∷ [] } }

write_outcome_example :
    ((line : Bytes) × (marshal (number 3) ≡ some line)
      × (validate_key (codes "u:a") ≡ none)
      × (Logs path (set_record (codes "u:a") line) failing (write (codes "u:a") (number 3) failing)
          ⊎ Breaks path
              (set_record (codes "u:a") line)
              failing
              (write (codes "u:a") (number 3) failing)))
    ⊎ ((e : Error) × Rejected (codes "u:a") (number 3) failing e
        × (write (codes "u:a") (number 3) failing ≡ (err e, failing)))
unfolding equal
write_outcome_example = write_outcome (codes "u:a") failing path (number 3) refl refl

get_value-set_value_example :
    get_value string (codes "k") (set_value (codes "k") (text (codes "v")) (running [])).1
    ≡ (ok (text (codes "v")), (set_value (codes "k") (text (codes "v")) (running [])).1)
unfolding set_value write Os.write equal validate_key
get_value-set_value_example =
    get_value-set_value string (codes "k") (text (codes "v")) (running []) refl refl

set_fsync-Flushed_example :
    Flushed (set_fsync (codes "a") (number 3) users (running [])).1 (
      (set_fsync (codes "a") (number 3) users (running [])).0,
      (set_fsync (codes "a") (number 3) users (running [])).2,
    )
    × ((set_fsync (codes "a") (number 3) users (running [])).1
        ≡ record users { data_map = assoc_map.store users.data_map (codes "a") (number 3) })
    × OnDisk
        (users-Durable.entries ++ Entry.set (users.prefix ++ codes "a") digit_Loggable.line ∷ [])
        (set_fsync (codes "a") (number 3) users (running [])).2
set_fsync-Flushed_example = set_fsync-Flushed users-Durable (codes "a") (number 3) digit_Loggable

delete_fsync-Flushed_example :
    Flushed (delete_fsync (codes "a") users_with_a (running (a_is_3 ∷ []))).1 (
      (delete_fsync (codes "a") users_with_a (running (a_is_3 ∷ []))).0,
      (delete_fsync (codes "a") users_with_a (running (a_is_3 ∷ []))).2,
    )
    × ((delete_fsync (codes "a") users_with_a (running (a_is_3 ∷ []))).1
        ≡ record users_with_a { data_map = assoc_map.delete users_with_a.data_map (codes "a") })
    × OnDisk
        (users_with_a-Durable.entries ++ Entry.delete (users_with_a.prefix ++ codes "a") ∷ [])
        (delete_fsync (codes "a") users_with_a (running (a_is_3 ∷ []))).2
unfolding lookup equal
delete_fsync-Flushed_example =
    delete_fsync-Flushed users_with_a-Durable (codes "a") refl (deletable a_is_3-IsReadable)

-- A store with one orphan, and a map with one key.
abbrev shared : Store
shared = record (running []) {
  orphan_records = (codes "k", text (codes "v")) ∷ [];
  persist_maps = (codes "u", users_with_a) ∷ [];
}

shrink-Swapped_example :
    ((shrink idle shared).0 ≡ ok tt)
    × Swapped
        (record shared { shrinking = false; pending_records = [] })
        (wal_header ++ log_bytes (compacted shared))
        (length (compacted shared))
        (shrink idle shared).1
shrink-Swapped_example = shrink-Swapped shared refl refl refl ((λ e. cc), tt) (((λ e. cc), tt), tt)
