-- ===== src/Wal.antt =====
-- `write` and `Store.Delete` (wal.go). Each runs under the lock `mu`, so a call is one step.
pub mod Effects
pub mod Writes
pub mod Replay
pub mod Outcomes
use go_persist.Base.{
  ℕ, ◌+◌, ◌%◌, Bool, true, false, Option, none, some, List, [], ◌∷◌, ◌++◌, Bytes, codes,
  if◌then◌else◌,
}
use go_persist.Env.XsyncMap.{XsyncMap}
use go_persist.Env.Json.{Json}
use go_persist.Env.Os
use go_persist.Env.Os.{Os}
use go_persist.Key.{validate_key}
use go_persist.Record.{set_record, delete_record}
use go_persist.Result.{Error, not_loaded, io_failed, json_failed, Result, ok, err}
use go_persist.State.{Store}

-- `WalHeader`, with the newline that is written behind it.
abbrev pub wal_header : Bytes
wal_header = codes "go-persist 1" ++ b'\n' ∷ []

-- int32 as its bit pattern.
abbrev pub int32_mod : ℕ
int32_mod = 0x1_0000_0000

abbrev pub add32 : ℕ → ℕ → ℕ
add32 a b = (a + b) % int32_mod

module _ ⦃maps : XsyncMap⦄ ⦃json : Json⦄ where
  open maps use {delete}
  open json use {Value, marshal}

  -- After the record `b` is in the file.
  abbrev pub count_record : Bytes → Store → Store
  count_record b s = record s {
    total_wal_records = add32 s.total_wal_records 1;
    pending_records = if s.shrinking then s.pending_records ++ b ∷ [] else s.pending_records;
  }

  abbrev pub or_io_failed : Bool → Store → Store → Result (Unit {0}) × Store
  or_io_failed true done failed = (ok tt, done)
  or_io_failed false done failed = (err io_failed, failed)

  abbrev write_line : Bytes → Option Bytes → Store → Result (Unit {0}) × Store
  write_line key none s = (err json_failed, s)
  write_line key (some line) s =
      let b = set_record key line in
      let (done, os') = Os.write s.f b s.os in
      let s' = record s { os = os' } in or_io_failed done (count_record b s') s'

  abbrev write_valid : Option Error → Bytes → Value → Store → Result (Unit {0}) × Store
  write_valid (some e) key value s = (err e, s)
  write_valid none key value s = write_line key (marshal value) s

  -- `write`
  unfoldable pub write : Bytes → Value → Store → Result (Unit {0}) × Store
  write key value s =
      if s.loaded then write_valid (validate_key key) key value s else (err not_loaded, s)

  -- `Store.Delete`
  unfoldable pub delete_key : Bytes → Store → Result (Unit {0}) × Store
  delete_key key s =
      if s.loaded
      then (let b = delete_record key in
          let (done, os') = Os.write s.f b s.os in
          let s' = record s { os = os' } in
          or_io_failed done
            (count_record b (record s' { orphan_records = delete s.orphan_records key })) s')
      else (err not_loaded, s)
