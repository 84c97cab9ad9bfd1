-- ===== src/BenchmarkLoad/Files/Repeated.antt =====
-- The runs of the load benchmark on files, one after the other.
use go_persist.Base.{ℕ, suc, ◌≡◌, refl, sym, ◌∙◌, true, some, List, Bytes, Option, arith}
use go_persist.BenchmarkLoad.Files.Runs.{
  Fitting, write_files_common-Adds, Stored, HasFiles, close-Stored, or_fatal-ok, check_file-Stored,
}
use go_persist.BenchmarkLoad.Files.Sizes.{precompute_payloads-Sized}
use go_persist.BenchmarkLoad.Files.{
  file_name, num_files, precompute_payloads, run_pebble_files, run_badger_files,
}
use go_persist.BenchmarkLoad.Runs.{or_fatal, unchecked}
use go_persist.BenchmarkLoad.Runs.Repeated.{repeat, Dependable, repeat-created}
use go_persist.Env.KeyValue.{KeyValue, Direct, Batched}
use go_persist.Env.Rand.{Payloads}

module _ (source : Payloads) (kv : KeyValue) where
  open kv use {Dir, Db, missing, open_db, get, close}

  module _ (opens : (dir : Dir) → (db : Db) × (open_db dir ≡ some db))
      (closes : (db : Db) → (close db).0 ≡ true) where
    fresh-Fitting :
        (dir : Dir) (db : Db)
        → missing dir ≡ true
        → open_db dir ≡ some db
        → (k : ℕ) → Fitting source k (get (file_name k) db)
    fresh-Fitting dir db fresh opened k v found =
        cc (kv.get-open_db_missing dir db (file_name k) fresh opened, found)

    -- What `precomputePayloads` leaves in `files_payloads`.
    abbrev payloads : List Bytes
    payloads = precompute_payloads source 0 num_files

    -- What runs one after the other come to: none is fatal, and the database has all files.
    abbrev pub StoresFiles : (Dir → Option Dir) → ℕ → Dir → Type 0
    StoresFiles run runs dir =
        (dir' : Dir) × (db : Db) × (repeat run (suc runs) dir ≡ some dir')
        × (open_db dir' ≡ some db)
        × HasFiles source kv db

    repeat-StoresFiles :
        {run : Dir → Option Dir}
        → Dependable missing (Stored source kv) run
        → (runs : ℕ) (dir : Dir) → missing dir ≡ true
        → StoresFiles run runs dir
    repeat-StoresFiles d runs dir fresh =
        let (dir', ran, w) = repeat-created missing (Stored source kv) d runs dir fresh in
        let (db, opened) = opens dir' in (dir', db, ran, opened, w.holds db opened)

    module _ (direct : Direct kv)
        (sets : (key v : Bytes) (db : Db) → (db' : Db) × (direct.set key v db ≡ some db')) where
      run_pebble_files-Dependable :
          Dependable missing (Stored source kv) (run_pebble_files source kv direct payloads)
      unfolding run_pebble_files
      run_pebble_files-Dependable = record {
        creates = λ dir fresh.
            let (db, opened) = opens dir in
            let (sized, long) = precompute_payloads-Sized source 0 num_files in
            let (db', ran, adds, present) =
              write_files_common-Adds source get (λ i payload. direct.set (file_name i) payload)
                (λ i payload db.
                  let (db', ran) = sets (file_name i) payload db in
                  (db', ran, λ j. direct.get-set (file_name i) payload db db' j ran))
                0 payloads db sized in
            let stored = close-Stored source kv opens closes (record {
              present = λ k bound. present k (omega arith) (omega (arith, long, bound));
              fits = λ k. adds.fits k (fresh-Fitting dir db fresh opened k);
            }) in
            let (dir', checked, w) =
              check_file-Stored source kv opens closes (or_fatal)
                (or_fatal-ok source kv opens closes) (close db').1 stored in
            (
              dir',
              rw fresh (rw opened (rw ran (rw (or_fatal-ok source kv opens closes db') checked))),
              w,
            );
        reads = λ dir w.
            let (dir', checked, w') =
              check_file-Stored source kv opens closes (or_fatal)
                (or_fatal-ok source kv opens closes) dir w in
            (dir', rw w.there checked, w');
      }

      -- The same of `runPebbleFiles`, which writes the files one by one.
      repeat-run_pebble_files :
          (runs : ℕ) (dir : Dir)
          → missing dir ≡ true
          → StoresFiles (run_pebble_files source kv direct payloads) runs dir
      repeat-run_pebble_files = repeat-StoresFiles run_pebble_files-Dependable

    module _ (batched : Batched kv)
        (sets : (key v : Bytes) (b : batched.Batch)
          → (b' : batched.Batch) × (batched.set key v b ≡ some b'))
        (commits : (b : batched.Batch) → (db : Db) × (batched.commit b ≡ some db)) where
      run_badger_files-Dependable :
          Dependable missing (Stored source kv) (run_badger_files source kv batched payloads)
      unfolding run_badger_files
      run_badger_files-Dependable = record {
        creates = λ dir fresh.
            let (db, opened) = opens dir in
            let (sized, long) = precompute_payloads-Sized source 0 num_files in
            let (b, ran, adds, present) =
              write_files_common-Adds source batched.shows
                (λ i payload. batched.set (file_name i) payload)
                (λ i payload b.
                  let (b', ran) = sets (file_name i) payload b in
                  (b', ran, λ j. batched.shows-set (file_name i) payload b b' j ran))
                0 payloads (batched.begin db) sized in
            let (db', done) = commits b in
            let after = λ (k : ℕ). batched.get-commit b db' (file_name k) done in
            let before = λ (k : ℕ). batched.shows-begin db (file_name k) in
            let stored = close-Stored source kv opens closes (record {
              present = λ k bound gone.
                  present k (omega arith) (omega (arith, long, bound)) (sym (after k) ∙ gone);
              fits = λ k v found.
                  adds.fits k
                    (λ u began. fresh-Fitting dir db fresh opened k u (sym (before k) ∙ began)) v
                    (sym (after k) ∙ found);
            }) in
            let (dir', checked, w) =
              check_file-Stored source kv opens closes (unchecked) (λ db. refl) (close db').1
                stored in
            (
              dir',
              rw fresh (
                  rw opened
                    (rw ran (rw done (rw (or_fatal-ok source kv opens closes db') checked)))),
              w,
            );
        reads = λ dir w.
            let (dir', checked, w') =
              check_file-Stored source kv opens closes (unchecked) (λ db. refl) dir w in
            (dir', rw w.there checked, w');
      }

      -- From no database on, with what `precomputePayloads` leaves in `files_payloads`, no run of
      -- `runBadgerFiles` is fatal, if no call of badger fails: every run finds the file that it reads
      -- with the size that it expects, and the database has each of the 100 files afterwards, of the
      -- size that `getFileSize` tells for its index.
      pub repeat-run_badger_files :
          (runs : ℕ) (dir : Dir)
          → missing dir ≡ true
          → StoresFiles (run_badger_files source kv batched payloads) runs dir
      repeat-run_badger_files = repeat-StoresFiles run_badger_files-Dependable
