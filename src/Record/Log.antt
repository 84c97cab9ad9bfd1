-- ===== src/Record/Log.antt =====
-- The reading goroutine of `processRecords` (wal.go).
use go_persist.Base.{ℕ, zero, suc, ◌+◌, List, [], ◌∷◌, Bytes, length}
use go_persist.Result.{Error, eof, reading_failed}
use go_persist.Record.{Record, got, failed, read_record, buffer_size}

-- How the loop over the log ends. `no_fuel` stands for a loop that does not end.
pub data Stop : Type 0 where
  at_eof no_fuel : Stop
  on_error : Error → Stop

pub record ReadLog : Type 0 where
  pub records : List Record
  pub stop : Stop

abbrev pub ended : Error → Stop
ended eof = at_eof
ended e = on_error (reading_failed e)

abbrev pub before : Record → ReadLog → ReadLog
before r l = record l { records = r ∷ l.records }

-- One record in a round. The call waits in its case.
unfoldable pub read_log : ℕ → ℕ → Bytes → ReadLog
read_log size zero src = record { records = []; stop = no_fuel }
read_log size (suc fuel) src = elim (read_record size src) [
  | got r rest ↦ before r (read_log size fuel rest)
  | failed e ↦ record { records = []; stop = ended e }
]

-- A round takes at least two bytes, so the length of the file is more than enough.
unfoldable pub read_file : Bytes → ReadLog
read_file src = read_log buffer_size (length src + 1) src
