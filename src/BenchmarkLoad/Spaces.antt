-- ===== src/BenchmarkLoad/Spaces.antt =====
-- The runs of the load benchmark on the stores that have a bucket or a keyspace for each map
-- (benchmark-load/load.go and seq.go). Printing, clocks, `flushPageCache` and `runtime.GC` are left out.
pub mod Reading
pub mod Runs
pub mod Repeated
use go_persist.Base.{
  ℕ, zero, suc, Bool, true, false, Option, none, some, List, [], ◌∷◌, Bytes, codes, if◌then◌else◌,
}
use go_persist.BenchmarkLoad.Records.{ComplexRecord}
use go_persist.BenchmarkLoad.Runs.{
  ◌>>=◌, map_names, key_name, expected_id, RecordJson, pre_generated_records, insert_slice,
  check_id, each_key, or_fatal, unchecked,
}
use go_persist.BenchmarkLoad.Stores.{num_entries, prepare_keys}
use go_persist.Env.KeyValue.{Spaces, Shuffle}
use go_persist.Env.Rand.{Rand}

module _ (json : RecordJson) (spaces : Spaces) where
  open json use {marshal, unmarshal}
  open spaces use {Dir, Db, Txn, missing, open_db, close, begin, enter, put, commit, has_space, get}

  -- The body of the loops over a map, and the loops: bbolt has one transaction for all maps, voidDB
  -- has one for each.
  abbrev pub put_in : Bytes → ℕ → ComplexRecord → Txn → Option Txn
  put_in map_name i r txn = do encoded ← marshal r; put map_name (key_name i) encoded txn

  unfoldable pub insert_buckets : List (Bytes × List ComplexRecord) → Txn → Option Txn
  insert_buckets [] txn = some txn
  insert_buckets ((name, slice) ∷ rest) txn = do
    bucket ← enter name txn
    filled ← insert_slice put_in name 0 slice bucket
    insert_buckets rest filled

  unfoldable pub insert_keyspaces : List (Bytes × List ComplexRecord) → Db → Option Db
  insert_keyspaces [] db = some db
  insert_keyspaces ((name, slice) ∷ rest) db = do
    cursor ← enter name (begin db)
    filled ← insert_slice put_in name 0 slice cursor
    db' ← commit filled
    insert_keyspaces rest db'

  -- A record of the third map is read and its identifier compared.
  abbrev pub read_space_id : Bytes → Bytes → Db → Option (Unit {0})
  read_space_id key expected db =
      if has_space (codes "map3") db
      then (get (codes "map3") key db >>= λ value. unmarshal value >>= λ r. check_id expected r)
      else none

  unfoldable pub measure_one_in : (Bool × Dir → Option Dir) → Dir → Option Dir
  measure_one_in closed dir = do
    db ← open_db dir
    u ← read_space_id (codes "key-40000") (codes "map3-40000") db
    closed (close db)

  unfoldable pub measure_keys_in : (Bool × Dir → Option Dir) → List ℕ → Dir → Option Dir
  measure_keys_in closed keys dir = do
    db ← open_db dir
    u ← each_key (λ i. read_space_id (key_name i) (expected_id i) db) keys
    closed (close db)

  -- `sequentialOpenBolt` and `sequentialOpenVoid`, with as many rounds.
  unfoldable pub sequential_open_in : ℕ → Dir → Option Dir
  unfolding measure_one_in
  sequential_open_in zero dir = some dir
  sequential_open_in (suc rounds) dir = measure_one_in or_fatal dir >>= sequential_open_in rounds

  module _ ⦃rand : Rand⦄ (now : Bytes → ℕ → ℕ) (source : Shuffle) where
    -- `runBoltDB`
    unfoldable pub run_bolt_db : Dir → Option Dir
    unfolding insert_buckets measure_one_in measure_keys_in
    run_bolt_db dir =
        if missing dir
        then (do
          pre_generated ← pre_generated_records now num_entries map_names
          db ← open_db dir
          txn ← insert_buckets pre_generated (begin db)
          db' ← commit txn
          or_fatal (close db'))
        else (measure_one_in unchecked dir >>= measure_keys_in unchecked (prepare_keys source))

    -- `runVoidDB`
    unfoldable pub run_void_db : Dir → Option Dir
    unfolding insert_keyspaces measure_one_in measure_keys_in
    run_void_db dir =
        if missing dir
        then (do
          pre_generated ← pre_generated_records now num_entries map_names
          db ← open_db dir
          db' ← insert_keyspaces pre_generated db
          or_fatal (close db'))
        else (measure_one_in unchecked dir >>= measure_keys_in unchecked (prepare_keys source))
