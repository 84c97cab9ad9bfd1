-- ===== src/Lifecycle/Single.antt =====
-- `OpenSingleMap`.
use go_persist.Base.{
  ℕ, ◌≡◌, refl, ap, ◌∙◌, Bool, true, false, some, [], Bytes, arith, Bool-cases, inl, inr,
}
use go_persist.Env.Float64.{Float64}
use go_persist.Env.Os.{Os}
use go_persist.Env.XsyncMap.{XsyncMap}
use go_persist.Env.Json.{Json}
use go_persist.Key.{validate_key}
use go_persist.Lifecycle.{
  open_single_map, ignore_error, open_registered, start_opened, start_auto_shrink,
}
use go_persist.Loading.Create.{with_map, map_of_lem}
use go_persist.Loading.{open_store}
use go_persist.PersistMap.{get}
use go_persist.PersistMap.History.{View}
use go_persist.PersistMap.History.Disk.{OnDisk, open_store-OnDisk}
use go_persist.PersistMap.History.Reopen.{answer, get-Holding}
use go_persist.Result.{Result, ok, err, auto_shrink_running}
use go_persist.State.{PersistMap, Store}

module _ ⦃maps : XsyncMap⦄ ⦃json : Json⦄ (float : Float64) where
  open maps use {load}
  open json use {GoType}
  open float use {one, default_ratio, le}

  -- The store of `OpenSingleMap`: the map under the empty name answers `Get` by `m`, and the log is
  -- compacted from time to time.
  pub record Single (t : GoType) (m : View) (path : Bytes) (s : Store) : Type 0 where
    pub pm : PersistMap
    pub registered : load s.persist_maps [] ≡ some pm
    pub answers : (key : Bytes) → get key pm ≡ answer t (m key)
    pub at_path : s.path ≡ path
    pub is_loaded : s.loaded ≡ true
    pub compacts : s.auto_shrink ≡ true

  abbrev compacting : Store → Store
  compacting s = record s { auto_shrink = true }

  start_running :
      (s : Store)
      → s.loaded ≡ true
      → s.auto_shrink ≡ true
      → start_auto_shrink float default_ratio s ≡ (err auto_shrink_running, s)
  unfolding start_auto_shrink
  start_running s loaded running = simp (loaded, running)

  start_fresh :
      (s : Store)
      → le default_ratio one ≡ false
      → s.loaded ≡ true
      → s.auto_shrink ≡ false
      → start_auto_shrink float default_ratio s ≡ (ok tt, compacting s)
  unfolding start_auto_shrink
  start_fresh s accepted loaded fresh = simp (loaded, fresh, accepted)

  start_lem :
      (s : Store)
      → le default_ratio one ≡ false
      → s.loaded ≡ true
      → ignore_error float (start_auto_shrink float default_ratio s) ≡ (ok tt, compacting s)
  start_lem s accepted loaded = elim (Bool-cases s.auto_shrink) [
    | inl running ↦
        ap (ignore_error float) (start_running s loaded running)
        ∙ ap
            (λ (b : Bool).
              let r : Result (Unit {0}) × Store = (ok tt, record s { auto_shrink = b }) in r)
            running
    | inr fresh ↦ ap (ignore_error float) (start_fresh s accepted loaded fresh)
  ]

  -- `OpenSingleMap` of a path at which no file stands, where `m` is empty; or at which stands what
  -- a process has left that used the file through a durable map of the empty name and of the same
  -- type, which held `m` and had no dirty key (its store is open on a log whose records can all be
  -- read back and which holds what the map holds for every key that is not dirty; every value has
  -- a valid key and a JSON text that decodes to it and whose record can be read back, and the
  -- delete record of every dirty key can be read back; and no call of the operating system fails).
  -- The log that it left holds only entries of this map: the key begins with the colon and a value
  -- decodes at the type of the map, so that no orphan was stored with `Store.Set`. If no call of
  -- the operating system fails now either, and the ratio 1.8 is not at most 1.0: it succeeds, and
  -- `Get` returns for every key what `m` says. The automatic compaction is started.
  pub open_single_map-Single :
      (t : GoType) (path : Bytes) (ahead : ℕ) {m : View} (os : Os)
      → le default_ratio one ≡ false
      → OnDisk t [] path m os
      → ((open_single_map float ahead t path os).0 ≡ ok tt)
        × Single t m path (open_single_map float ahead t path os).1
  unfolding open_single_map validate_key
  open_single_map-Single t path ahead {m} os accepted disk =
      let (success, (pm, there, h)) = open_store-OnDisk t [] path (omega arith) ahead disk in
      let s = (open_store ahead path (with_map t [] os)).1 in
      let run : open_single_map float ahead t path os ≡ (ok tt, compacting s) =
        ap (open_registered float ahead path) (map_of_lem t [] os refl)
        ∙ ap (λ (r : Result (Unit {0})). start_opened float (r, s)) success
        ∙ start_lem s accepted h.durable.log.is_loaded in
      rw run (
        refl,
        record {
          pm = pm;
          registered = there;
          answers = get-Holding h;
          at_path = h.at_path;
          is_loaded = h.durable.log.is_loaded;
          compacts = refl;
        },
      )
