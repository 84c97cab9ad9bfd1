-- ===== src/Lifecycle.antt =====
-- `FSyncAll`, `Close`, the sync interval, `Stats`, the two background goroutines (wal.go) and
-- `OpenSingleMap` (map.go).
pub mod Counts
pub mod AutoShrink
pub mod Single
use go_persist.Base.{
  ℕ, Bool, true, false, not, ◌&&◌, Option, none, some, List, [], ◌∷◌, ◌++◌, Bytes, ltb,
  if◌then◌else◌,
}
use go_persist.Env.XsyncMap.{XsyncMap}
use go_persist.Env.Json.{Json}
use go_persist.Env.Float64.{Float64}
use go_persist.Env.Os
use go_persist.Env.Os.{Os, Handle, at, closed}
use go_persist.Loading.{new_store, map_of, open_store}
use go_persist.PersistMap.{sync, sync_file, map_size}
use go_persist.Result.{
  not_loaded, io_failed, shrink_in_progress, auto_shrink_running, ratio_too_small, Result, ok, err,
  panic,
}
use go_persist.Shrink.{Window, shrink}
use go_persist.State.{PersistMap, Store}
use go_persist.Wal.{add32}

module _ ⦃maps : XsyncMap⦄ ⦃json : Json⦄ where
  open maps use {empty, load, store, range}
  open json use {GoType, Value}

  -- `Sync` of one registered map.
  abbrev sync_registered : Bytes → PersistMap × Store → Store
  sync_registered name (pm, s) = record s { persist_maps = store s.persist_maps name pm }

  abbrev sync_found : Bytes → Option PersistMap → Store → Store
  sync_found name none s = s
  sync_found name (some pm) s = sync_registered name (sync pm s)

  unfoldable pub sync_maps : List (Bytes × PersistMap) → Store → Store
  sync_maps [] s = s
  sync_maps ((name, _) ∷ rest) s = sync_maps rest (sync_found name (load s.persist_maps name) s)

  -- `FSyncAll`
  unfoldable pub fsync_all : Store → Result (Unit {0}) × Store
  unfolding sync_maps sync_file
  fsync_all s =
      if s.loaded then sync_file (sync_maps (range s.persist_maps) s) else (err not_loaded, s)

  -- A tick of the background goroutine that `Open` starts.
  abbrev report_error : Result (Unit {0}) × Store → Store
  report_error (err e, s) = record s { handled = s.handled ++ e ∷ [] }
  report_error (_, s) = s

  unfoldable pub sync_tick : Store → Store
  unfolding fsync_all
  sync_tick s = report_error (fsync_all s)

  -- `Close`. Closing a channel twice panics.
  abbrev settle_close : Bool × Os → Store → Result (Unit {0}) × Store
  settle_close (good, os) s = (
    if good then ok tt else err io_failed,
    record s { os = os; f = closed; persist_maps = empty; orphan_records = empty },
  )

  abbrev close_synced : Result (Unit {0}) × Store → Result (Unit {0}) × Store
  close_synced (ok u, s) = settle_close (Os.attempt s.os) s
  close_synced (res, s) = (res, s)

  unfoldable pub close_store : Store → Result (Unit {0}) × Store
  unfolding fsync_all
  close_store s =
      if s.loaded
      then (if s.sync_running
          then close_synced (fsync_all (record s { sync_running = false }))
          else (panic, s))
      else (err not_loaded, s)

  -- `GetSyncInterval` and `SetSyncInterval`, in nanoseconds.
  unfoldable pub get_sync_interval : Store → ℕ
  get_sync_interval s = s.sync_interval

  unfoldable pub set_sync_interval : ℕ → Store → Store
  set_sync_interval interval s = record s { sync_interval = interval }

  -- `Stats`: the counts are int32.
  unfoldable pub count_entries : {V : Type 0} → List (Bytes × V) → ℕ → ℕ
  count_entries [] n = n
  count_entries (e ∷ rest) n = count_entries rest (add32 n 1)

  unfoldable pub count_maps : List (Bytes × PersistMap) → ℕ → ℕ
  unfolding map_size
  count_maps [] n = n
  count_maps ((name, pm) ∷ rest) n = count_maps rest (add32 n (map_size pm))

  unfoldable pub stats : Store → ℕ × ℕ
  unfolding count_entries count_maps
  stats s = (
    count_maps (range s.persist_maps) (count_entries (range s.orphan_records) 0),
    s.total_wal_records,
  )

  -- `n > 0` on an int32.
  abbrev pub is_positive : ℕ → Bool
  is_positive n = ltb 0 n && ltb n 0x8000_0000

  module _ (float : Float64) where
    open float use {Float, of_int32, one, default_ratio, divide, le}

    unfoldable pub should_shrink : Float → ℕ → ℕ → Bool
    should_shrink ratio active wal =
        if is_positive active
        then le ratio (divide (of_int32 wal) (of_int32 active))
        else is_positive wal

    abbrev pub report_shrink : Result (Unit {0}) × Store → Store
    report_shrink (err shrink_in_progress, s) = s
    report_shrink (err e, s) = record s { handled = s.handled ++ e ∷ [] }
    report_shrink (_, s) = s

    -- A tick of the goroutine that `StartAutoShrink` starts.
    unfoldable pub auto_shrink_tick : Float → (Window → Store → Store) → Store → Store
    unfolding should_shrink stats
    auto_shrink_tick ratio others s =
        let (active, wal) = stats s in
        if should_shrink ratio active wal then report_shrink (shrink others s) else s

    -- `StartAutoShrink`
    unfoldable pub start_auto_shrink : Float → Store → Result (Unit {0}) × Store
    start_auto_shrink ratio s =
        if not s.loaded
        then (err not_loaded, s)
        else if s.auto_shrink
        then (err auto_shrink_running, s)
        else if le ratio one
        then (err ratio_too_small, s)
        else (ok tt, record s { auto_shrink = true })

    -- `OpenSingleMap`: the map is the one that is registered under the empty name.
    abbrev pub ignore_error : Result (Unit {0}) × Store → Result (Unit {0}) × Store
    ignore_error (res, s) = (ok tt, s)

    abbrev pub start_opened : Result (Unit {0}) × Store → Result (Unit {0}) × Store
    start_opened (ok u, s) = ignore_error (start_auto_shrink default_ratio s)
    start_opened (res, s) = (res, s)

    abbrev pub open_registered : ℕ → Bytes → Result (Unit {0}) × Store → Result (Unit {0}) × Store
    open_registered ahead path (ok u, s) = start_opened (open_store ahead path s)
    open_registered ahead path (res, s) = (res, s)

    unfoldable pub open_single_map : ℕ → GoType → Bytes → Os → Result (Unit {0}) × Store
    unfolding new_store map_of open_store start_auto_shrink
    open_single_map ahead t path os = open_registered ahead path (map_of t [] (new_store os))
