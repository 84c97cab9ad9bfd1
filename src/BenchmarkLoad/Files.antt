-- ===== src/BenchmarkLoad/Files.antt =====
-- The runs of the load benchmark that store files (benchmark-load/files.go), on pebble and badger.
-- Printing, clocks and `flushPageCache` are left out.
pub mod Sizes
pub mod Runs
pub mod Repeated
use Prim.Native.Nat.{bit_xor}
use go_persist.Base.{
  ℕ, zero, suc, ◌+◌, ◌*◌, ◌%◌, ◌^◌, Bool, true, false, Option, none, some, List, [], ◌∷◌, ◌++◌,
  Bytes, codes, length, ◌==◌, if◌then◌else◌,
}
use go_persist.BenchmarkLoad.Records.{decimal}
use go_persist.BenchmarkLoad.Runs.{◌>>=◌, or_fatal, unchecked}
use go_persist.Env.KeyValue.{KeyValue, Direct, Batched}
use go_persist.Env.Rand.{Payloads}

abbrev pub megabyte : ℕ
megabyte = 1_048_576

-- hash/fnv: `Write` of FNV-1a with 32 bits, from its offset basis 2166136261 on, and `Sum32`.
unfoldable pub fnv_write32 : ℕ → Bytes → ℕ
fnv_write32 h [] = h
fnv_write32 h (b ∷ bs) = fnv_write32 (bit_xor h b * 16_777_619 % 2 ^ 32) bs

-- `numFiles`, `fileToCheck` and `fileKey`
abbrev pub num_files : ℕ
num_files = 100

abbrev pub file_to_check : ℕ
file_to_check = 50

abbrev pub file_key : Bytes
file_key = codes "file-50"

-- `"file-%d"`
abbrev pub file_name : ℕ → Bytes
file_name i = codes "file-" ++ decimal i

-- `writeFilesCommon`: the loop over the payloads from the index `i` on, where `write` is `writeFunc`.
unfoldable pub write_files_common :
    {S : Type 0} → (ℕ → Bytes → S → Option S) → ℕ → List Bytes → S → Option S
write_files_common write i [] s = some s
write_files_common write i (payload ∷ rest) s =
    write i payload s >>= write_files_common write (suc i) rest

module _ (source : Payloads) where
  open source use {random_bytes, scaled}

  -- `createPayload` and `getFileSize`
  unfoldable pub create_payload : ℕ → ℕ → Bytes
  create_payload size seed = random_bytes seed size

  unfoldable pub get_file_size : ℕ → ℕ
  get_file_size i =
      if i == 0 then 2 * megabyte else 2 * megabyte + scaled (fnv_write32 2_166_136_261 (decimal i))

  -- `precomputePayloads`, from the index `i` on: what it puts into `files_payloads`.
  unfoldable pub precompute_payloads : ℕ → ℕ → List Bytes
  unfolding create_payload
  precompute_payloads i zero = []
  precompute_payloads i (suc more) =
      create_payload (get_file_size i) i ∷ precompute_payloads (suc i) more

  module _ (kv : KeyValue) where
    open kv use {Dir, Db, missing, open_db, get, close}

    -- The read phase: one file is there, with its size.
    unfoldable pub check_file : (Bool × Dir → Option Dir) → Dir → Option Dir
    check_file closed dir = do
      db ← open_db dir
      value ← get file_key db
      if length value == get_file_size file_to_check then closed (close db) else none

    -- `runPebbleFiles`, which reads `files_payloads`. Only the length of the value is used after its closer
    -- is closed.
    unfoldable pub run_pebble_files : Direct kv → List Bytes → Dir → Option Dir
    unfolding check_file
    run_pebble_files direct files_payloads dir = do
      written ←
          (if missing dir
            then (do
              db ← open_db dir
              db' ←
                  write_files_common (λ i payload. direct.set (file_name i) payload) 0
                    files_payloads db
              or_fatal (close db'))
            else some dir)
      check_file or_fatal written

    -- `runBadgerFiles`, which reads `files_payloads`.
    unfoldable pub run_badger_files : Batched kv → List Bytes → Dir → Option Dir
    unfolding check_file
    run_badger_files batched files_payloads dir = do
      written ←
          (if missing dir
            then (do
              db ← open_db dir
              batch ←
                  write_files_common (λ i payload. batched.set (file_name i) payload) 0
                    files_payloads (batched.begin db)
              db' ← batched.commit batch
              or_fatal (close db'))
            else some dir)
      check_file unchecked written
