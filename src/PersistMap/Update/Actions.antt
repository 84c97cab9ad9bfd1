-- ===== src/PersistMap/Update/Actions.antt =====
-- `Update` is `Set`, `Delete` or nothing, as the updater chooses.
use go_persist.Base.{
  ◌≡◌, ◌≢◌, refl, ap, Bool, true, false, Option, none, some, ◌++◌, Bytes, equal, equal_iff,
  Bool-cases, inl, inr, if◌then◌else◌,
}
use go_persist.Env.XsyncMap.{XsyncMap, Outcome}
use go_persist.Env.Json.{Json}
use go_persist.PersistMap.Update.{
  ActionType, action_none, action_set, action_delete, action_cancel, Update, given, well_typed,
  update, update_async, update_callback, shown, unchanged, act, act_async,
}
use go_persist.PersistMap.{
  set, set_callback, delete_now, delete_callback, set_async, delete_async, delete_async_callback,
  report, is_some,
}
use go_persist.Result.{Result, ok}
use go_persist.State.{PersistMap, Store}
use go_persist.Wal.{write, delete_key}

module _ ⦃maps : XsyncMap⦄ ⦃json : Json⦄ where
  open maps use {load, store, delete, compute_keep, compute_remove, load-store, load-delete}
  open json use {Value, zero_value, has_type}

  act_other :
      (key : Bytes) (a : ActionType) (v : Value) (old : Option Value) (s : Store)
      → a ≢ action_set
      → a ≢ action_delete
      → act key a v old s ≡ (unchanged old, false, s)
  act_other key action_none v old s no_set no_delete = refl
  act_other key action_set v old s no_set no_delete = absurd (no_set refl)
  act_other key action_delete v old s no_set no_delete = absurd (no_delete refl)
  act_other key action_cancel v old s no_set no_delete = refl

  module _ (key : Bytes) (updater : Update → Update) (pm : PersistMap) (s : Store) where
    abbrev pub chosen : Update
    chosen = updater (given pm (load pm.data_map key))

    same_if_gone :
        (j : Bytes)
        → load pm.data_map key ≡ none
        → (if equal key j then none else load pm.data_map j) ≡ load pm.data_map j
    same_if_gone j e = elim (Bool-cases (equal key j)) [
      | inl same ↦ rw (same, ← (equal_iff key j).0 same, e)
      | inr other ↦ rw other
    ]

    same_if_there :
        (j : Bytes) (v : Value)
        → load pm.data_map key ≡ some v
        → (if equal key j then some v else load pm.data_map j) ≡ load pm.data_map j
    same_if_there j v e = elim (Bool-cases (equal key j)) [
      | inl same ↦ rw (same, ← (equal_iff key j).0 same, e)
      | inr other ↦ rw other
    ]

    abbrev pub Undisturbed : Result (Value × Bool) × PersistMap × Store → Type 0
    Undisturbed x =
        (x.0 ≡ ok (shown pm (load pm.data_map key)))
        × (x.2 ≡ s)
        × ((j : Bytes) → load x.1.data_map j ≡ load pm.data_map j)

    module _ (typed : well_typed pm (load pm.data_map key) ≡ true) where
      -- The key holds nothing or a value of the map's type. If the updater leaves the action at
      -- "set", `Update` does what `Set` of the value that it leaves does, and returns that value.
      pub update-set :
          chosen.action ≡ action_set
          → update key updater pm s ≡ (
            ok (chosen.value, true),
            (set key chosen.value pm s).0,
            (set key chosen.value pm s).1,
          )
      unfolding update set
      update-set sets =
          rw
            (compute_keep pm.data_map key (update_callback pm updater (act (pm.prefix ++ key)))
              (false, s) {v = chosen.value}
              {s' = (false, report (write (pm.prefix ++ key) chosen.value s))} (rw (typed, sets)))
            (rw (compute_keep pm.data_map key (set_callback pm key chosen.value) s refl))

      -- The key holds nothing or a value of the map's type. If the updater chooses "delete", `Update`
      -- does what `Delete` does, and returns the zero value.
      pub update-delete_now :
          chosen.action ≡ action_delete
          → update key updater pm s ≡ (
            ok (zero_value pm.value_type, false),
            (delete_now key pm s).1,
            (delete_now key pm s).2,
          )
      unfolding update delete_now
      update-delete_now deletes =
          rw
            (compute_remove pm.data_map key (update_callback pm updater (act (pm.prefix ++ key)))
              (false, s) {s' = (false, report (delete_key (pm.prefix ++ key) s))}
              (rw (typed, deletes)))
            (rw (
              compute_remove pm.data_map key (delete_callback pm key) (false, s)
                {s' = (is_some (load pm.data_map key), report (delete_key (pm.prefix ++ key) s))}
                refl))

      -- The key holds nothing or a value of the map's type. If the updater leaves the action at
      -- "set", `UpdateAsync` does what `SetAsync` of the value that it leaves does.
      pub update_async-set_async :
          chosen.action ≡ action_set
          → update_async key updater pm s
            ≡ (ok (chosen.value, true), set_async key chosen.value pm, s)
      unfolding update_async set_async
      update_async-set_async sets = rw (
          compute_keep pm.data_map key (update_callback pm updater act_async) (false, s)
            {v = chosen.value} {s' = (false, s)} (rw (typed, sets)))

      -- The key holds nothing or a value of the map's type. If the updater chooses "delete",
      -- `UpdateAsync` does what `DeleteAsync` does, and returns the zero value.
      pub update_async-delete_async :
          chosen.action ≡ action_delete
          → update_async key updater pm s
            ≡ (ok (zero_value pm.value_type, false), (delete_async key pm).1, s)
      unfolding update_async delete_async
      update_async-delete_async deletes =
          rw
            (compute_remove pm.data_map key (update_callback pm updater act_async) (false, s)
              {s' = (false, s)} (rw (typed, deletes)))
            (rw (
              compute_remove pm.data_map key delete_async_callback false
                {s' = is_some (load pm.data_map key)} refl))

      -- The key holds nothing or a value of the map's type. If the updater chooses neither "set" nor
      -- "delete", `Update` returns what the key has, leaves the store as it is, and every key keeps
      -- its value.
      pub update_cancelled :
          chosen.action ≢ action_set
          → chosen.action ≢ action_delete
          → Undisturbed (update key updater pm s)
      unfolding update
      update_cancelled no_set no_delete = go (load pm.data_map key) refl
        where
          callback : Option Value → Bool × Store → Outcome Value × (Bool × Store)
          callback = update_callback pm updater (act (pm.prefix ++ key))

          idle :
              (o : Option Value)
              → load pm.data_map key ≡ o
              → callback (load pm.data_map key) (false, s) ≡ (unchanged o, (false, s))
          idle o e = rw typed (
              rw
                (act_other (pm.prefix ++ key) chosen.action chosen.value (load pm.data_map key) s
                  no_set no_delete)
                (ap
                  (λ (x : Option Value).
                    let r : Outcome Value × (Bool × Store) = (unchanged x, (false, s)) in r)
                  e))

          go : (o : Option Value) → load pm.data_map key ≡ o → Undisturbed (update key updater pm s)
          go none e =
              rw
                (compute_remove pm.data_map key callback (false, s) {s' = (false, s)} (idle none e))
                (rw e, refl, λ j. rw (load-delete pm.data_map key j) (same_if_gone j e))
          go (some v) e =
              rw
                (compute_keep pm.data_map key callback (false, s) {v = v} {s' = (false, s)}
                  (idle (some v) e))
                (rw e, refl, λ j. rw (load-store pm.data_map key v j) (same_if_there j v e))
