-- ===== src/Loading.antt =====
-- `New`, `Map`, `processRecords` and `Open` (wal.go, map.go).
pub mod Routing
pub mod Misrouting
pub mod Dispatch
pub mod Restore
pub mod Create
pub mod Recovery
pub mod Crash
use mathlib.Core.Option
use go_persist.Base.{
  ℕ, zero, suc, ◌+◌, Bool, true, false, not, Option, none, some, List, [], ◌∷◌, ◌++◌, Bytes, length,
  take, drop, min, ◌==◌, equal, codes, if◌then◌else◌,
}
use go_persist.Env.XsyncMap.{XsyncMap}
use go_persist.Env.Json.{Json}
use go_persist.Env.Os
use go_persist.Env.Os.{Os, Handle, at, closed, File}
use go_persist.Header.{is_wal_header}
use go_persist.Key.{validate_key}
use go_persist.PersistMap.{process_record}
use go_persist.Record.{Record}
use go_persist.Record.Log.{ReadLog, Stop, at_eof, no_fuel, on_error, read_file}
use go_persist.Result.{
  Error, already_loaded, map_already_exists, map_closed, eof, invalid_header, io_failed,
  processing_failed, Result, ok, err, panic,
}
use go_persist.State.{PersistMap, Store}
use go_persist.Wal.{add32, wal_header}

-- `strings.Index(s, ":")` and the like; `none` is -1.
unfoldable pub index : ℕ → Bytes → Option ℕ
index c [] = none
index c (b ∷ bs) = let later = Option.map suc (index c bs) in if b == c then some 0 else later

-- `candidate`, and what a registered map is given as the key.
abbrev split_at : Bytes → Option ℕ → Bytes × Bytes
split_at key none = ([], key)
split_at key (some i) = (take i key, drop (suc i) key)

unfoldable pub route : Bytes → Bytes × Bytes
unfolding index
route key = split_at key (index b':' key)

-- `strings.HasPrefix`
unfoldable pub has_prefix : Bytes → Bytes → Bool
has_prefix [] bs = true
has_prefix (p ∷ ps) [] = false
has_prefix (p ∷ ps) (b ∷ bs) = let rest = has_prefix ps bs in if p == b then rest else false

-- The bytes behind the first newline: `ReadString('\n')`, with its error dropped.
unfoldable pub skip_line : Bytes → Bytes
skip_line [] = []
skip_line (b ∷ bs) = let rest = skip_line bs in if b == b'\n' then bs else rest

-- The first line with its newline; `none` if there is no newline.
unfoldable pub first_line : Bytes → Option Bytes
first_line [] = none
first_line (b ∷ bs) =
    let later = Option.map (◌∷◌ b) (first_line bs) in if b == b'\n' then some (b ∷ []) else later

module _ ⦃maps : XsyncMap⦄ ⦃json : Json⦄ where
  open maps use {Map, empty, load, store, delete, range}
  open json use {GoType, Value, string_value, as_string}

  -- `New`, on a file system that is there. One second is 10⁹ ns.
  unfoldable pub new_store : Os → Store
  new_store os = record {
    os = os;
    f = closed;
    path = [];
    sync_running = false;
    persist_maps = empty;
    closed_maps = empty;
    orphan_records = empty;
    sync_interval = 1_000_000_000;
    shrinking = false;
    pending_records = [];
    auto_shrink = false;
    total_wal_records = 0;
    loaded = false;
    handled = [];
  }

  -- One record of the loop in `processRecords`.
  abbrev settle_record : Bytes → Record → Result PersistMap → Store → Result (Unit {0}) × Store
  settle_record name r (ok pm) s = (ok tt, record s { persist_maps = store s.persist_maps name pm })
  settle_record name r (err e) s = (err (processing_failed r.key e), s)
  settle_record name r panic s = (panic, s)

  abbrev orphan_record : Record → Store → Store
  orphan_record r s =
      if r.op == b'S'
      then record s { orphan_records = store s.orphan_records r.key (string_value r.value) }
      else if r.op == b'D'
      then record s { orphan_records = delete s.orphan_records r.key }
      else s

  abbrev dispatch_to :
      Bytes → Bytes → Record → Option PersistMap → Store → Result (Unit {0}) × Store
  dispatch_to name key r (some pm) s = settle_record name r (process_record r.op key r.value pm) s
  dispatch_to name key r none s = (ok tt, orphan_record r s)

  unfoldable pub dispatch : Record → Store → Result (Unit {0}) × Store
  dispatch r s =
      let (name, key) = route r.key in dispatch_to name key r (load s.persist_maps name) s

  -- The loop, and how many records it took from the channel.
  abbrev pub Processed : Type 0
  Processed = Result (Unit {0}) × ℕ × Store

  abbrev next_record : Result (Unit {0}) × Store → (Store → Processed) → Processed
  next_record (ok u, s) more = let (res, n, s') = more s in (res, n + 1, s')
  next_record (res, s) more = (res, 1, s)

  unfoldable pub process_all : List Record → Store → Processed
  process_all [] s = (ok tt, 0, s)
  process_all (r ∷ rs) s = next_record (dispatch r s) (process_all rs)

  -- `outErr`, once the channel is closed and drained.
  abbrev stop_result : Stop → Result (Unit {0})
  stop_result at_eof = ok tt
  stop_result (on_error e) = err e
  stop_result no_fuel = panic

  -- `totalWALRecords` counts the records that were read. If one fails to be processed, the reading
  -- goroutine is `ahead` records further, or at the end.
  abbrev settle_all : ℕ → ReadLog → Processed → Result (Unit {0}) × Store
  settle_all ahead log (ok u, n, s) =
      (stop_result log.stop, record s { total_wal_records = add32 s.total_wal_records n })
  settle_all ahead log (res, n, s) = (
    res,
    record s {
      total_wal_records = add32 s.total_wal_records (min (n + ahead) (length log.records));
    },
  )

  abbrev process_file : ℕ → Option File → Bool × Os → Store → Result (Unit {0}) × Store
  process_file ahead (some file) (true, os) s =
      let log = read_file (skip_line file.content) in
      settle_all ahead log (process_all log.records (record s { os = os }))
  process_file ahead file (opened, os) s = (err io_failed, record s { os = os })

  -- `processRecords`
  unfoldable pub process_records : ℕ → Store → Result (Unit {0}) × Store
  process_records ahead s = process_file ahead (s.os.files s.path) (Os.attempt s.os) s

  -- The calls of `Open` on its file, in order. An error closes the file and returns.
  abbrev Checked : Type 0
  Checked = Result (Unit {0}) × Os

  abbrev and_then : Bool × Os → (Os → Checked) → Checked
  and_then (true, os) rest = rest os
  and_then (false, os) rest = (err io_failed, os)

  abbrev accept_header : Bool → Os → Checked
  accept_header true os = and_then (Os.attempt os) (λ os. (ok tt, os))
  accept_header false os = (err invalid_header, os)

  abbrev check_line : Option Bytes → Os → Checked
  check_line none os = (err eof, os)
  check_line (some line) os = accept_header (is_wal_header line) os

  abbrev check_content : Bytes → Bytes → Os → Checked
  check_content path [] os =
      and_then (Os.write (at path) wal_header os)
        (λ os. and_then (Os.sync (at path) os) (λ os. (ok tt, os)))
  check_content path content os =
      and_then (Os.attempt os)
        (λ os. and_then (Os.attempt os) (λ os. check_line (first_line content) os))

  unfoldable pub open_file : Bytes → Os → Checked
  open_file path os =
      and_then (Os.open_append path os) (λ os.
        and_then (Os.attempt os) (λ os. check_content path (Os.content_of (os.files path)) os))

  abbrev pub start_sync : Result (Unit {0}) × Store → Result (Unit {0}) × Store
  start_sync (ok u, s) = (ok tt, record s { sync_running = true; loaded = true })
  start_sync (res, s) = (res, record s { f = closed })

  abbrev load_checked : ℕ → Bytes → Checked → Store → Result (Unit {0}) × Store
  load_checked ahead path (ok u, os) s =
      start_sync (process_records ahead (record s { os = os; f = at path; path = path }))
  load_checked ahead path (res, os) s = (res, record s { os = os; path = path })

  -- `Open`
  unfoldable pub open_store : ℕ → Bytes → Store → Result (Unit {0}) × Store
  open_store ahead path s =
      if s.loaded then (err already_loaded, s) else load_checked ahead path (open_file path s.os) s

  -- `Map`: the orphans of the new map, as far as they can be read, move into it.
  abbrev Adopted : Type 0
  Adopted = Result (Unit {0}) × Store

  abbrev adopt_as : Bytes → Bytes → Result PersistMap → Store → (Store → Adopted) → Adopted
  adopt_as name key (ok pm) s more = more (record s {
    persist_maps = store s.persist_maps name pm;
    orphan_records = delete s.orphan_records key;
  })
  adopt_as name key (err e) s more = (err (processing_failed key e), s)
  adopt_as name key panic s more = (panic, s)

  abbrev adopt_value :
      Bytes → Bytes → PersistMap → Option Bytes → Store → (Store → Adopted) → Adopted
  adopt_value name key pm none s more = (panic, s)
  adopt_value name key pm (some raw) s more =
      adopt_as name key (process_record b'S' (drop (length pm.prefix) key) raw pm) s more

  abbrev adopt_one : Bytes → Bytes → Value → Option PersistMap → Store → (Store → Adopted) → Adopted
  adopt_one name key value none s more = (ok tt, s)
  adopt_one name key value (some pm) s more =
      let skipped = more s in
      if has_prefix pm.prefix key then adopt_value name key pm (as_string value) s more else skipped

  unfoldable pub adopt_orphans : Bytes → List (Bytes × Value) → Store → Adopted
  adopt_orphans name [] s = (ok tt, s)
  adopt_orphans name ((key, value) ∷ rest) s =
      adopt_one name key value (load s.persist_maps name) s (adopt_orphans name rest)

  abbrev pub new_map : GoType → Bytes → PersistMap
  new_map t name = record {
    value_type = t;
    data_map = empty;
    prefix = name ++ b':' ∷ [];
    dirty = empty;
  }

  abbrev is_some {ℓ} : {A : Type ℓ} → Option A → Bool
  is_some none = false
  is_some (some a) = true

  abbrev register : GoType → Bytes → Option Error → Store → Adopted
  register t name (some e) s = (err e, s)
  register t name none s =
      if is_some (load s.closed_maps name)
      then (err map_closed, s)
      else if is_some (load s.persist_maps name)
      then (err map_already_exists, s)
      else (let s' = record s { persist_maps = store s.persist_maps name (new_map t name) } in
          if s.loaded then adopt_orphans name (range s.orphan_records) s' else (ok tt, s'))

  unfoldable pub map_of : GoType → Bytes → Store → Adopted
  unfolding adopt_orphans has_prefix
  map_of t name s = register t name (validate_key name) s
