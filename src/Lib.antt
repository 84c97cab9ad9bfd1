-- ===== src/Lib.antt =====
-- go-persist: a store of typed maps in memory, behind a write-ahead log in one file. The
-- development models the package (wal.go and map.go) and most of its load benchmark.
--
-- The parts and how they meet:
-- - Record: the bytes of a log record (`write`, `Delete` and `readRecord` of wal.go).
--   `Record.Log` is the reading goroutine of `processRecords`; `Record.Entry` says what a client
--   logs and which entries can be read back; `Record.RoundTrip`, `Record.Damage` and
--   `Record.Termination` are about reading.
-- - Header: the first line of the file (`Open` of wal.go).
-- - Key: `ValidateKey` of wal.go, with the decoder of unicode/utf8.
-- - State: the structs `Store` (wal.go) and `PersistMap` (map.go). `Result`: errors as values.
-- - Wal: `write` and `Store.Delete` of wal.go, which append to the file and count the record.
--   `Wal.Effects` gives a log its meaning, the raw value of every key; `Wal.Outcomes` is about
--   calls that may fail, `Wal.Writes` about sequences of calls that do not, `Wal.Replay` about
--   what a log does to one key.
-- - PersistMap: the methods of map.go, and below it `PersistMap.Update`. They call Wal under the
--   lock of a bucket. `PersistMap.Durable` states what ties a map to its log.
--   `PersistMap.History` has sequences of calls, and what they note in a function from keys to
--   values; `PersistMap.History.Reopen` ends one with `Sync` and the next `Open`;
--   `PersistMap.History.Disk` is about what a process finds on the disk,
--   `PersistMap.History.Sessions` about the processes that use a file one after the other, from
--   `New` and `Map` on.
-- - Loading: `New`, `Open` and `processRecords` of wal.go, `Map` of map.go. Records go to the
--   registered maps, the others to the orphans. `Loading.Create` is about a file that is not
--   there, `Loading.Restore` about a file from which entries are read, `Loading.Recovery` about
--   a whole log and `Loading.Crash` about a log that a power failure has cut; `Record.Cut` says
--   what is read of such a log.
-- - Orphans: `Store.Set` and `Get` of wal.go; `Orphans.Values` is about the two.
-- - Shrink: `Shrink` of wal.go, which rewrites the file through a temporary one; what other
--   goroutines do meanwhile is an argument. `Shrink.Alone` is about a run without them,
--   `Shrink.Durable` about a map beside the new file, `Shrink.Interleaved` about a run beside
--   goroutines that write: `Shrink.Work` is the relation of what they may do, `Shrink.Windows`
--   and `Shrink.Drain` are about the windows and the loop over `pendingRecords`.
--   `Shrink.Compacting`, `Shrink.Steps`, `Shrink.MapPass` and `Shrink.Swap` follow the
--   temporary file.
--   `Shrink.Guarded` is about goroutines that keep a property of the store through the windows,
--   and `Shrink.Used` about the owner of a map, who calls `Set`, `SetAsync`, `Delete`,
--   `DeleteAsync`, `Update` and `Sync` in them.
-- - Lifecycle: `FSyncAll`, `Close`, `Stats`, the two background goroutines, `StartAutoShrink` of
--   wal.go and `OpenSingleMap` of map.go. `Lifecycle.Counts` compares `Stats` with a compacted
--   log; `Lifecycle.AutoShrink` is about the ticks, `Lifecycle.Single` about `OpenSingleMap`.
-- - BenchmarkLoad: the load benchmark. `BenchmarkLoad.Text` and `BenchmarkLoad.Records` are the
--   records that it stores (`createRecord` of benchmark-load/load.go, and the generation of text
--   of benchmark-load/main.go), `BenchmarkLoad.Runs` what its runs share (`preGeneratedRecords`
--   and the loops), `BenchmarkLoad.Stores` the runs on buntdb and badger
--   (benchmark-load/load.go and seq.go), `BenchmarkLoad.Spaces` those on bbolt and voidDB, and
--   `BenchmarkLoad.Files` the runs on pebble and badger of benchmark-load/files.go.
-- - Env: what the package calls. `Env.XsyncMap` (github.com/puzpuzpuz/xsync/v3), `Env.Json`
--   (github.com/goccy/go-json, with the Go types), `Env.Float64`, `Env.Rand` (math/rand) and
--   `Env.KeyValue` (the stores of the load benchmark) are records of operations and documented
--   laws, which the definitions take as arguments; `Env.Os` is the file system, with a list of
--   faults that the environment injects.
-- - Base: the names that the files share, and tests and lists over the native numbers.
-- - Tests: the theorems at concrete inputs, over an association list and a small codec.
--
-- Bounds: `int32` counters wrap at 2 ^ 32. Reading runs on the length of the file and one more;
-- each round takes at least two bytes, so that is enough. A reader's buffer has 4096 bytes. A text of
-- `n` bytes is generated in `n` rounds at most, since each makes it longer.
--
-- What is simplified: a call that holds a lock is one step, and so is each pass of `Range` over a
-- map. The updater of an `Update` is a function that does not call the store. `ErrorHandler` is
-- assumed to return (the default one ends the process); `handled` lists what it was given. After a
-- failed record the reading goroutine may be ahead of the loop; `ahead` says by how many records.
-- A read of an open file does not fail midway, and a rename is atomic. After `Close` the maps of
-- the store are nil; here they are empty. Logging and timers are left out: a tick is an operation.
-- A power failure cuts the file: it leaves a prefix, and no bytes that were not written, such as
-- zeros, behind it. The type of a map is not an interface type: what `Unmarshal` decodes then passes
-- the assertion to that type, so that `PersistMap[any]` is out of scope, and the last assertion of
-- the updates, `newValIface.(T)`, always holds and is left out.
-- The error values keep their cause, and not their text. A `log.Fatal` of the benchmark is `none`.
--
-- Not modelled: the benchmark program benchmark, of which lotsa.go is a copy of another library; of
-- benchmark-load, `runPersist`, `runPebble` and `sequentialOpenPebble`, which decode a value when
-- pebble no longer says what its bytes are, the runs of files.go on bbolt, voidDB and the file
-- system, and what measures and prints; and the unit tests.
pub mod Base
pub mod BenchmarkLoad
pub mod Result
pub mod Env
pub mod Key
pub mod Record
pub mod State
pub mod Header
pub mod Loading
pub mod Orphans
pub mod Shrink
pub mod Lifecycle
pub mod Tests
pub mod Wal
pub mod PersistMap
