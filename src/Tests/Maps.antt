-- ===== src/Tests/Maps.antt =====
-- The maps, the loading of a file and what ties the two, at concrete inputs.
use go_persist.Base.{◌≡◌, refl, inl, true, false, some, [], ◌∷◌, Bytes, codes, arith, equal, ◌++◌}
use go_persist.Env.XsyncMap.{lookup}
use go_persist.Env.XsyncMap.Assoc.{assoc_map}
use go_persist.Loading.{index, route, open_store, dispatch}
use go_persist.Loading.Dispatch.{Tracks, Loaded, dispatch-Loaded}
use go_persist.Loading.Recovery.{Openable, Opened, open_store-Opened}
use go_persist.PersistMap.{get, set, set_async, delete_now, delete_async, sync, is_some}
use go_persist.PersistMap.Durable.{Durable, no_contents}
use go_persist.PersistMap.Durable.Calls.{set-Appended, delete_now-Appended}
use go_persist.PersistMap.Durable.Async.{set_async-Durable}
use go_persist.PersistMap.Durable.Sync.{Synced, sync-Synced}
use go_persist.PersistMap.Reopen.{get-reopen}
use go_persist.PersistMap.Update.{Update, given, update, update_async, action_delete, action_cancel}
use go_persist.PersistMap.Update.Actions.{
  update-set, update-delete_now, update_cancelled, update_async-set_async,
  update_async-delete_async, Undisturbed,
}
use go_persist.Record.Entry.{Entry, entry_record}
use go_persist.Result.{ok}
use go_persist.State.{PersistMap, Store}
use go_persist.Tests.Codec.{codec, int, number}
use go_persist.Tests.Fixtures.{
  path, running, waiting, users, users_with_a, users-Durable, users_with_a-Durable, digit_Loggable,
  a_is_3, a_is_3-IsReadable, b_deleted, b_deleted-IsReadable,
}
use go_persist.Wal.Effects.{apply, behind}

set-Appended_example :
    ((set (codes "a") (number 3) users (running [])).0
      ≡ record users { data_map = assoc_map.store users.data_map (codes "a") (number 3) })
    × ((set (codes "a") (number 3) users (running [])).1
        ≡ behind users-Durable.log (Entry.set (users.prefix ++ codes "a") digit_Loggable.line))
    × Durable
        (set (codes "a") (number 3) users (running [])).0
        (set (codes "a") (number 3) users (running [])).1
set-Appended_example = set-Appended users-Durable (codes "a") (number 3) digit_Loggable

delete_now-Appended_example :
    ((delete_now (codes "b") users_with_a (running (a_is_3 ∷ []))).0
      ≡ is_some (assoc_map.load users_with_a.data_map (codes "b")))
    × ((delete_now (codes "b") users_with_a (running (a_is_3 ∷ []))).1
        ≡ record users_with_a { data_map = assoc_map.delete users_with_a.data_map (codes "b") })
    × ((delete_now (codes "b") users_with_a (running (a_is_3 ∷ []))).2
        ≡ record (behind users_with_a-Durable.log
            (Entry.delete (users_with_a.prefix ++ codes "b"))) {
              orphan_records =
                  assoc_map.delete
                    (running (a_is_3 ∷ [])).orphan_records
                    (users_with_a.prefix ++ codes "b");
            })
    × Durable
        (delete_now (codes "b") users_with_a (running (a_is_3 ∷ []))).1
        (delete_now (codes "b") users_with_a (running (a_is_3 ∷ []))).2
delete_now-Appended_example =
    delete_now-Appended users_with_a-Durable (codes "b") b_deleted-IsReadable

after_set-Durable : Durable (set_async (codes "a") (number 3) users) (running [])
after_set-Durable = set_async-Durable users-Durable (codes "a") (number 3) digit_Loggable

sync-Synced_example :
    Synced after_set-Durable.entries
      (set_async (codes "a") (number 3) users)
      (running [])
      (sync (set_async (codes "a") (number 3) users) (running [])).0
      (sync (set_async (codes "a") (number 3) users) (running [])).1
sync-Synced_example = sync-Synced after_set-Durable

waiting-Tracks : Tracks (codes "u") int no_contents (waiting (a_is_3 ∷ b_deleted ∷ []))
unfolding lookup equal
waiting-Tracks = record {
  pm = users;
  registered = refl;
  typed = refl;
  prefixed = refl;
  clean = λ key. refl;
  holds = λ key. refl;
}

waiting-Openable :
    Openable path (a_is_3 ∷ b_deleted ∷ []) (codes "u") int (waiting (a_is_3 ∷ b_deleted ∷ []))
unfolding lookup equal index route
waiting-Openable = record {
  not_loaded = refl;
  synced = 13;
  there = refl;
  quiet = refl;
  readable = (a_is_3-IsReadable, (b_deleted-IsReadable, tt));
  plain = omega arith;
  tracks = waiting-Tracks;
  separates = (inl (λ e. cc), (inl (λ e. cc), tt));
  decodes = ((number 3, refl), (tt, tt));
}

open_store-Opened_example :
    ((open_store 0 path (waiting (a_is_3 ∷ b_deleted ∷ []))).0 ≡ ok tt)
    × Opened path
        (a_is_3 ∷ b_deleted ∷ [])
        (codes "u")
        int
        (waiting (a_is_3 ∷ b_deleted ∷ []))
        (open_store 0 path (waiting (a_is_3 ∷ b_deleted ∷ []))).1
open_store-Opened_example =
    open_store-Opened path (a_is_3 ∷ b_deleted ∷ []) (waiting (a_is_3 ∷ b_deleted ∷ []))
      waiting-Openable 0

dispatch-Loaded_example :
    (s' : Store) × (dispatch (entry_record a_is_3) (waiting (a_is_3 ∷ b_deleted ∷ []))
      ≡ (ok tt, s'))
    × Loaded (codes "u") int (apply a_is_3 no_contents) (waiting (a_is_3 ∷ b_deleted ∷ [])) s'
dispatch-Loaded_example =
    dispatch-Loaded a_is_3 (omega arith) waiting-Tracks (inl (λ e. cc)) waiting-Openable.decodes.0

one_waiting-Openable : Openable path (a_is_3 ∷ []) (codes "u") int (waiting (a_is_3 ∷ []))
unfolding lookup equal index route
one_waiting-Openable = record {
  not_loaded = refl;
  synced = 13;
  there = refl;
  quiet = refl;
  readable = (a_is_3-IsReadable, tt);
  plain = omega arith;
  tracks = record {
    pm = users;
    registered = refl;
    typed = refl;
    prefixed = refl;
    clean = λ key. refl;
    holds = λ key. refl;
  };
  separates = (inl (λ e. cc), tt);
  decodes = ((number 3, refl), tt);
}

get-reopen_example :
    ((open_store 0 path (waiting (a_is_3 ∷ []))).0 ≡ ok tt)
    × ((pm' : PersistMap) × (lookup
            (codes "u")
            (open_store 0 path (waiting (a_is_3 ∷ []))).1.persist_maps
          ≡ some pm')
        × ((key : Bytes) → get key pm' ≡ get key users_with_a))
unfolding lookup users_with_a-Durable
get-reopen_example =
    get-reopen users_with_a (running (a_is_3 ∷ [])) (waiting (a_is_3 ∷ [])) (codes "u") 0
      users_with_a-Durable (λ key. refl) refl one_waiting-Openable

-- Updaters: set the value to 3, ask for the deletion, cancel.
abbrev to_3 : Update → Update
to_3 u = record u { value = number 3 }

abbrev to_gone : Update → Update
to_gone u = record u { action = action_delete }

abbrev to_cancel : Update → Update
to_cancel u = record u { action = action_cancel }

update-set_example : update (codes "a") to_3 users (running []) ≡ (
  ok (number 3, true),
  (set (codes "a") (number 3) users (running [])).0,
  (set (codes "a") (number 3) users (running [])).1,
)
unfolding lookup given
update-set_example = update-set (codes "a") to_3 users (running []) refl refl

update-delete_now_example : update (codes "a") to_gone users_with_a (running (a_is_3 ∷ [])) ≡ (
  ok (number 0, false),
  (delete_now (codes "a") users_with_a (running (a_is_3 ∷ []))).1,
  (delete_now (codes "a") users_with_a (running (a_is_3 ∷ []))).2,
)
unfolding lookup equal
update-delete_now_example =
    update-delete_now (codes "a") to_gone users_with_a (running (a_is_3 ∷ [])) refl refl

update_async-set_async_example :
    update_async (codes "a") to_3 users (running [])
    ≡ (ok (number 3, true), set_async (codes "a") (number 3) users, running [])
unfolding lookup given
update_async-set_async_example =
    update_async-set_async (codes "a") to_3 users (running []) refl refl

update_async-delete_async_example :
    update_async (codes "a") to_gone users_with_a (running [])
    ≡ (ok (number 0, false), (delete_async (codes "a") users_with_a).1, running [])
unfolding lookup equal
update_async-delete_async_example =
    update_async-delete_async (codes "a") to_gone users_with_a (running []) refl refl

update_cancelled_example :
    Undisturbed
      (codes "a")
      to_cancel
      users_with_a
      (running [])
      (update (codes "a") to_cancel users_with_a (running []))
unfolding lookup equal
update_cancelled_example =
    update_cancelled (codes "a") to_cancel users_with_a (running []) refl (λ e. cc) (λ e. cc)
