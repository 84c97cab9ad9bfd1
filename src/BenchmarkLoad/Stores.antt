-- ===== src/BenchmarkLoad/Stores.antt =====
-- The runs of the load benchmark on the stores whose keys have the name of a map in front
-- (benchmark-load/load.go and seq.go), buntdb and badger: both decode a value while it is valid. Printing,
-- clocks, `flushPageCache` and `runtime.GC` are left out.
pub mod Reading
pub mod Runs
use go_persist.Base.{
  ℕ, zero, suc, Bool, true, false, Option, none, some, List, [], ◌∷◌, Bytes, codes, if◌then◌else◌,
}
use go_persist.BenchmarkLoad.Records.{ComplexRecord}
use go_persist.BenchmarkLoad.Runs.{
  ◌>>=◌, map_names, prefixed_key, expected_id, RecordJson, pre_generated_records, insert_maps,
  check_id, each_key, or_fatal, unchecked,
}
use go_persist.Env.KeyValue.{KeyValue, Batched, Shuffle}
use go_persist.Env.Rand.{Rand}

-- `numEntries`
abbrev pub num_entries : ℕ
num_entries = 163_840

-- `prepareKeys`
unfoldable pub count_up : ℕ → ℕ → List ℕ
count_up i zero = []
count_up i (suc more) = i ∷ count_up (suc i) more

unfoldable pub prepare_keys : Shuffle → List ℕ
unfolding count_up
prepare_keys source = source.shuffle 42 (count_up 0 40_000)

module _ (json : RecordJson) (kv : KeyValue) where
  open json use {marshal, unmarshal}
  open kv use {Dir, Db, missing, open_db, get, close}

  -- A record is read and its identifier compared: in the transaction of the `View`, or from a string.
  abbrev pub read_record_id : Bytes → Bytes → Db → Option (Unit {0})
  read_record_id key expected db =
      get key db >>= λ value. unmarshal value >>= λ r. check_id expected r

  -- The bodies of `measure`: one key, and the keys in the order of `keys`.
  unfoldable pub measure_one : (Bool × Dir → Option Dir) → Dir → Option Dir
  measure_one closed dir = do
    db ← open_db dir
    u ← read_record_id (codes "map3:key-40000") (codes "map3-40000") db
    closed (close db)

  unfoldable pub measure_keys : (Bool × Dir → Option Dir) → List ℕ → Dir → Option Dir
  measure_keys closed keys dir = do
    db ← open_db dir
    u ← each_key (λ i. read_record_id (prefixed_key (codes "map3") i) (expected_id i) db) keys
    closed (close db)

  -- `sequentialOpenBadger`, with as many rounds.
  unfoldable pub sequential_open : ℕ → Dir → Option Dir
  unfolding measure_one
  sequential_open zero dir = some dir
  sequential_open (suc rounds) dir = measure_one or_fatal dir >>= sequential_open rounds

  -- The bodies of the loops that insert.
  module _ (batched : Batched kv) where
    abbrev pub put_batched : Bytes → ℕ → ComplexRecord → batched.Batch → Option batched.Batch
    put_batched map_name i r b = do
      encoded ← marshal r
      batched.set (prefixed_key map_name i) encoded b

  module _ ⦃rand : Rand⦄ (now : Bytes → ℕ → ℕ) (source : Shuffle) where
    module _ (batched : Batched kv) where
      -- `runBuntDB`, whose batch is the transaction of `Update`.
      unfoldable pub run_bunt_db : Dir → Option Dir
      unfolding measure_one measure_keys
      run_bunt_db dir =
          if missing dir
          then (do
            pre_generated ← pre_generated_records now num_entries map_names
            db ← open_db dir
            batch ← insert_maps (put_batched batched) pre_generated (batched.begin db)
            db' ← batched.commit batch
            or_fatal (close db'))
          else (measure_one unchecked dir >>= measure_keys unchecked (prepare_keys source))

      -- `runBadger`, whose batch is a `WriteBatch` and takes effect at `Flush`.
      unfoldable pub run_badger : Dir → Option Dir
      unfolding measure_one measure_keys
      run_badger dir =
          if missing dir
          then (do
            pre_generated ← pre_generated_records now num_entries map_names
            db ← open_db dir
            batch ← insert_maps (put_batched batched) pre_generated (batched.begin db)
            db' ← batched.commit batch
            or_fatal (close db'))
          else (measure_one unchecked dir >>= measure_keys unchecked (prepare_keys source))
