-- ===== src/PersistMap/History/Sessions.antt =====
-- A map over the lifetimes of several processes, from no file on.
use go_persist.Base.{ℕ, ◌≡◌, refl, ap, ◌∙◌, Option, none, some, List, [], ◌∷◌, ◌++◌, Bytes, All}
use go_persist.Env.Os.{Os}
use go_persist.Env.XsyncMap.{XsyncMap}
use go_persist.Env.Json.{Json}
use go_persist.Key.{validate_key}
use go_persist.Loading.Create.{with_map, map_of_lem}
use go_persist.Loading.Routing.{NoColon}
use go_persist.Loading.{new_store, map_of, open_store}
use go_persist.PersistMap.{get}
use go_persist.PersistMap.History.{Call, View, notes, Admissible}
use go_persist.PersistMap.History.Reopen.{answer, synced_run, get-Holding, synced_run-Holding}
use go_persist.PersistMap.History.Disk.{Left, OnDisk, no_file, left, open_store-OnDisk}
use go_persist.Result.{Result, ok}
use go_persist.State.{PersistMap, Store}

module _ ⦃maps : XsyncMap⦄ ⦃json : Json⦄ where
  open maps use {load}
  open json use {GoType, Value}

  -- What the calls of several processes note, one after the other.
  unfoldable pub all_notes : GoType → List Call → List (List Call) → View → View
  all_notes t cs [] m = notes t cs m
  all_notes t cs (ds ∷ rest) m = all_notes t ds rest (notes t cs m)

  -- Where a process keeps its map: the type and the name of the map, and the path of the file. `ahead`
  -- is the argument of `open_store`.
  module _ (t : GoType) (name path : Bytes) (ahead : ℕ) where
    -- The calls of one process, then `Sync`, on the map that is registered.
    abbrev use_map : List Call → Store → Option PersistMap → Option (PersistMap × Store)
    use_map cs s none = none
    use_map cs s (some pm) = some (synced_run cs (pm, s))

    abbrev use_opened : List Call → Result (Unit {0}) × Store → Option (PersistMap × Store)
    use_opened cs (ok u, s) = use_map cs s (load s.persist_maps name)
    use_opened cs (res, s) = none

    abbrev open_mapped : List Call → Result (Unit {0}) × Store → Option (PersistMap × Store)
    open_mapped cs (ok u, s) = use_opened cs (open_store ahead path s)
    open_mapped cs (res, s) = none

    -- One process: `New`, `Map`, `Open`, the calls, `Sync`. Nothing if an error is returned.
    abbrev pub session : List Call → Os → Option (PersistMap × Store)
    session cs os = open_mapped cs (map_of t name (new_store os))

    abbrev go_on :
        Option (PersistMap × Store)
        → (Os → Option (PersistMap × Store))
        → Option (PersistMap × Store)
    go_on none next = none
    go_on (some p) next = next p.1.os

    -- A first process, and the others, each on the files that the one before has left.
    unfoldable pub sessions : List Call → List (List Call) → Os → Option (PersistMap × Store)
    sessions cs [] os = session cs os
    sessions cs (ds ∷ rest) os = go_on (session cs os) (sessions ds rest)

    abbrev pub AllAdmissible : List (List Call) → Type 0
    AllAdmissible = All (All (Admissible t (name ++ b':' ∷ [])))

    abbrev Leaves : View → Option (PersistMap × Store) → Type 0
    Leaves m o = (p : PersistMap × Store) × (o ≡ some p) × Left t name path m p

    module _ (valid : validate_key name ≡ none) (plain : NoColon name) where
      session-Leaves :
          {m : View} {os : Os} (cs : List Call)
          → OnDisk t name path m os
          → All (Admissible t (name ++ b':' ∷ [])) cs
          → Leaves (notes t cs m) (session cs os)
      session-Leaves {m} {os} cs disk admissible =
          let (success, (pm, there, h)) = open_store-OnDisk t name path plain ahead disk in
          let s = (open_store ahead path (with_map t name os)).1 in
          let (after, clean) = synced_run-Holding h cs admissible in
          (
            synced_run cs (pm, s),
            ap (open_mapped cs) (map_of_lem t name os valid)
                ∙ ap (λ (r : Result (Unit {0})). use_opened cs (r, s)) success
                ∙ ap (use_map cs s) there,
            record { holding = after; clean = clean },
          )

      sessions-Leaves :
          (cs : List Call) (rest : List (List Call)) {m : View} {os : Os}
          → OnDisk t name path m os
          → All (Admissible t (name ++ b':' ∷ [])) cs
          → AllAdmissible rest
          → Leaves (all_notes t cs rest m) (sessions cs rest os)
      unfolding sessions all_notes
      sessions-Leaves cs [] disk ok_cs ok_rest = session-Leaves cs disk ok_cs
      sessions-Leaves cs (ds ∷ rest) {m} {os} disk ok_cs ok_rest =
          let (p, form, l) = session-Leaves cs disk ok_cs in
          let (q, forms, k) =
            sessions-Leaves ds rest {m = notes t cs m} {os = p.1.os}
              (left l refl l.holding.durable.log.no_faults) ok_rest.0 ok_rest.1 in
          (q, ap (λ o. go_on o (sessions ds rest)) form ∙ forms, k)

      -- From no file on, any number of processes that follow each other, if no call of the operating
      -- system fails: each makes a store, registers a map of the same type under the same valid name
      -- with no colon, opens the file, makes admissible calls, and syncs the map. All of that succeeds,
      -- and in the last one `Get` returns for every key what the calls of all processes have noted, in
      -- their order.
      pub get-sessions :
          (cs : List Call) (rest : List (List Call)) (os : Os)
          → os.files path ≡ none
          → os.faults ≡ []
          → All (Admissible t (name ++ b':' ∷ [])) cs
          → AllAdmissible rest
          → (p : PersistMap × Store) × (sessions cs rest os ≡ some p)
            × ((key : Bytes) → get key p.0 ≡ answer t (all_notes t cs rest (λ key. none) key))
      get-sessions cs rest os missing quiet ok_cs ok_rest =
          let (p, form, l) = sessions-Leaves cs rest (no_file missing quiet) ok_cs ok_rest in
          (p, form, get-Holding l.holding)
