-- ===== src/PersistMap.antt =====
-- The methods of `PersistMap` (map.go), but `Update` and its kin, which the child `Update` has.
-- A method takes and returns the map beside its store.
pub mod Update
pub mod Durable
pub mod Reopen
pub mod History
use go_persist.Base.{
  ℕ, Bool, true, false, Option, none, some, List, [], ◌∷◌, ◌++◌, Bytes, ◌==◌, if◌then◌else◌,
}
use go_persist.Env.XsyncMap.{XsyncMap, Outcome, keep, remove}
use go_persist.Env.Json.{Json}
use go_persist.Env.Os
use go_persist.Env.Os.{Os, Handle}
use go_persist.Record.{set_record}
use go_persist.Result.{Error, io_failed, json_failed, key_not_found, Result, ok, err, panic}
use go_persist.State.{PersistMap, Store}
use go_persist.Wal.{write, delete_key, add32}

abbrev pub is_some {ℓ} : {A : Type ℓ} → Option A → Bool
is_some none = false
is_some (some a) = true

module _ ⦃maps : XsyncMap⦄ ⦃json : Json⦄ where
  open maps use {load, store, delete, compute, size, range}
  open json use {Value, has_type, zero_value, marshal, unmarshal}

  -- `processRecord`
  abbrev store_decoded : PersistMap → Bytes → Option Value → Result PersistMap
  store_decoded pm key none = err json_failed
  store_decoded pm key (some v) = ok (record pm { data_map = store pm.data_map key v })

  unfoldable pub process_record : ℕ → Bytes → Bytes → PersistMap → Result PersistMap
  process_record op key value pm =
      if op == b'S'
      then store_decoded pm key (unmarshal pm.value_type value)
      else if op == b'D'
      then ok (record pm { data_map = delete pm.data_map key })
      else ok pm

  -- `writeRecords`, on the entries that are left: the count, the error, and the file system.
  abbrev pub Written : Type 0
  Written = ℕ × Option Error × Os

  abbrev next_written : Bool → Os → Written → Written
  next_written false os rest = (0, some io_failed, os)
  next_written true os rest = (add32 rest.0 1, rest.1, rest.2)

  unfoldable pub write_entries : Bytes → Handle → List (Bytes × Value) → Os → Written
  write_entries prefix w [] os = (0, none, os)
  write_entries prefix w ((key, value) ∷ rest) os = elim (marshal value) [
    | none ↦ (0, some json_failed, os)
    | some line ↦
        let (done, os') = Os.write w (set_record (prefix ++ key) line) os in
        next_written done os' (write_entries prefix w rest os')
  ]

  unfoldable pub write_records : Handle → PersistMap → Os → Written
  unfolding write_entries
  write_records w pm = write_entries pm.prefix w (range pm.data_map)

  -- `Get`: the value and whether it exists.
  abbrev pub checked : PersistMap → Option Value → Result (Value × Bool)
  checked pm none = ok (zero_value pm.value_type, false)
  checked pm (some v) = if has_type pm.value_type v then ok (v, true) else panic

  unfoldable pub get : Bytes → PersistMap → Result (Value × Bool)
  get key pm = checked pm (load pm.data_map key)

  -- `SetInMemory`
  unfoldable pub set_in_memory : Bytes → Value → PersistMap → PersistMap
  set_in_memory key value pm = record pm { data_map = store pm.data_map key value }

  -- `SetAsync`
  unfoldable pub set_async : Bytes → Value → PersistMap → PersistMap
  set_async key value pm = record pm {
    data_map = store pm.data_map key value;
    dirty = store pm.dirty key tt;
  }

  -- An error of the log goes to `ErrorHandler`, which returns here.
  abbrev pub report : Result (Unit {0}) × Store → Store
  report (err e, s) = record s { handled = s.handled ++ e ∷ [] }
  report (_, s) = s

  abbrev pub set_callback :
      PersistMap → Bytes → Value → Option Value → Store → Outcome Value × Store
  set_callback pm key value old s = (keep value, report (write (pm.prefix ++ key) value s))

  -- `Set`
  unfoldable pub set : Bytes → Value → PersistMap → Store → PersistMap × Store
  set key value pm s =
      let (m, _, s') = compute pm.data_map key (set_callback pm key value) s in
      (record pm { data_map = m }, s')

  -- The `Sync` of the store's file, as a result.
  unfoldable pub sync_file : Store → Result (Unit {0}) × Store
  sync_file s =
      let (done, os) = Os.sync s.f s.os in
      (if done then ok tt else err io_failed, record s { os = os })

  -- `SetFSync`
  unfoldable pub set_fsync :
      Bytes → Value → PersistMap → Store → Result (Unit {0}) × PersistMap × Store
  unfolding set sync_file
  set_fsync key value pm s =
      let (pm', s') = set key value pm s in let (r, s'') = sync_file s' in (r, pm', s'')

  abbrev pub delete_async_callback : Option Value → Bool → Outcome Value × Bool
  delete_async_callback old existed = (remove, is_some old)

  -- `DeleteAsync`: whether the key existed.
  unfoldable pub delete_async : Bytes → PersistMap → Bool × PersistMap
  delete_async key pm =
      let (m, _, existed) = compute pm.data_map key delete_async_callback false in
      (existed, record pm { data_map = m; dirty = store pm.dirty key tt })

  abbrev pub delete_callback :
      PersistMap → Bytes → Option Value → Bool × Store → Outcome Value × (Bool × Store)
  delete_callback pm key old (_, s) =
      (remove, (is_some old, report (delete_key (pm.prefix ++ key) s)))

  -- `Delete`
  unfoldable pub delete_now : Bytes → PersistMap → Store → Bool × PersistMap × Store
  delete_now key pm s =
      let (m, _, c) = compute pm.data_map key (delete_callback pm key) (false, s) in
      (c.0, record pm { data_map = m }, c.1)

  -- `DeleteFSync`
  unfoldable pub delete_fsync : Bytes → PersistMap → Store → Result (Unit {0}) × PersistMap × Store
  unfolding delete_now sync_file
  delete_fsync key pm s =
      let (existed, pm', s') = delete_now key pm s in
      if existed
      then (let (r, s'') = sync_file s' in (r, pm', s''))
      else (err key_not_found, pm', s')

  -- `Sync`: a dirty flag is cleared once the log has the value, or the deletion, of its key.
  abbrev pub flag_after : Result (Unit {0}) × Store → Outcome (Unit {0}) × Store
  flag_after (ok _, s) = (remove, s)
  flag_after (_, s) = (keep tt, s)

  abbrev pub log_current : PersistMap → Bytes → Option Value → Store → Result (Unit {0}) × Store
  log_current pm key (some v) s = write (pm.prefix ++ key) v s
  log_current pm key none s = delete_key (pm.prefix ++ key) s

  abbrev pub sync_callback :
      PersistMap → Bytes → Option (Unit {0}) → Store → Outcome (Unit {0}) × Store
  sync_callback pm key old s = flag_after (log_current pm key (load pm.data_map key) s)

  unfoldable pub sync_key : Bytes → PersistMap → Store → PersistMap × Store
  sync_key key pm s =
      let (d, _, s') = compute pm.dirty key (sync_callback pm key) s in
      (record pm { dirty = d }, s')

  unfoldable pub sync_keys : List (Bytes × Unit {0}) → PersistMap → Store → PersistMap × Store
  sync_keys [] pm s = (pm, s)
  sync_keys ((key, _) ∷ rest) pm s = let (pm', s') = sync_key key pm s in sync_keys rest pm' s'

  unfoldable pub sync : PersistMap → Store → PersistMap × Store
  unfolding sync_keys
  sync pm s = sync_keys (range pm.dirty) pm s

  -- `Size`
  unfoldable pub map_size : PersistMap → ℕ
  map_size pm = size pm.data_map

  -- `Range`, for a function with a state of its own; `false` stops the iteration.
  abbrev range_entries :
      {S : Type 0}
      → PersistMap
      → (Bytes → Value → S → Bool × S)
      → List (Bytes × Value)
      → S
      → Result S
  range_entries pm visit [] s = ok s
  range_entries pm visit ((key, value) ∷ rest) s =
      let (more, s') = visit key value s in
      let later = range_entries pm visit rest s' in
      if has_type pm.value_type value then (if more then later else ok s') else panic

  unfoldable pub range_map :
      {S : Type 0} → (Bytes → Value → S → Bool × S) → PersistMap → S → Result S
  range_map visit pm = range_entries pm visit (range pm.data_map)
