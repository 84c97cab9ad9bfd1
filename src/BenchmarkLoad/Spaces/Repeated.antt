-- ===== src/BenchmarkLoad/Spaces/Repeated.antt =====
-- From no database on, the runs of the load benchmark on bbolt and voidDB succeed.
use mathlib.Core.Path.{subst}
use go_persist.Base.{ℕ, ◌≡◌, refl, sym, ◌∙◌, true, some, Bytes}
use go_persist.BenchmarkLoad.Records.{ComplexRecord, create_record}
use go_persist.BenchmarkLoad.Runs.Inserted.{Encodes, Right, Among, pre_generated_records-AllSlices}
use go_persist.BenchmarkLoad.Runs.{unchecked, prefixed_key, map_names, RecordJson}
use go_persist.BenchmarkLoad.Spaces.Reading.{
  flat, flat_get, flat_shows, Willing, insert_buckets-Grows, insert_keyspaces-Grows,
}
use go_persist.BenchmarkLoad.Spaces.Runs.{
  or_fatal-ok, measure_both_in, filled-Holds, Filled, Fills, repeat-Filled,
}
use go_persist.BenchmarkLoad.Spaces.{run_bolt_db, run_void_db}
use go_persist.BenchmarkLoad.Stores.Reading.{close-Written}
use go_persist.BenchmarkLoad.Runs.Repeated.{Dependable}
use go_persist.BenchmarkLoad.Stores.Runs.{map_names-Plain}
use go_persist.BenchmarkLoad.Stores.{num_entries}
use go_persist.Env.KeyValue.{Spaces, Shuffle}
use go_persist.Env.Rand.{Rand}
use go_persist.Loading.{route}

module _ (json : RecordJson) (spaces : Spaces) (willing : Willing json spaces) ⦃rand : Rand⦄
    (now : Bytes → ℕ → ℕ) (source : Shuffle)
    (encodes : (name : Bytes) (i : ℕ) (r : ComplexRecord)
      → create_record (now name i) name i ≡ some r
      → Encodes json r) where
  open spaces use {Dir, Db, missing, close, begin}

  run_bolt_db-Dependable :
      Dependable missing (Filled json spaces willing) (run_bolt_db json spaces now source)
  unfolding run_bolt_db
  run_bolt_db-Dependable = record {
    creates = λ dir fresh.
        let (pre, made, names, slices) =
          pre_generated_records-AllSlices json now encodes num_entries map_names map_names-Plain in
        let (db, opened) = willing.obliging.opens dir in
        let (txn, ran, grows, present) =
          insert_buckets-Grows json spaces willing num_entries pre (begin db) slices in
        let (db', done) = willing.commits txn in
        let before : (j : Bytes) → flat_shows json spaces j (begin db) ≡ flat_get json spaces j db =
          λ j. spaces.shows-begin db (route j).0 (route j).1 in
        let after : (j : Bytes) → flat_get json spaces j db' ≡ flat_shows json spaces j txn =
          λ j. spaces.get-commit txn db' (route j).0 (route j).1 done in
        (
          (close db').1,
          rw fresh (rw (made, opened) (rw ran (rw done (or_fatal-ok json spaces willing db')))),
          close-Written json (flat spaces) willing.obliging (
              filled-Holds json spaces willing dir db db' fresh opened
                (λ m plain j right. subst (Right json m j) (sym (after (prefixed_key m j))) (
                  grows.right m plain j
                    (subst (Right json m j) (sym (before (prefixed_key m j))) right)))
                (λ m among j bound gone.
                  present m (subst (Among m) (sym names) among) j bound
                    (sym (after (prefixed_key m j)) ∙ gone))),
        );
    reads = λ dir w.
        let (dir', both, w') =
          measure_both_in json spaces willing (unchecked) (λ db. refl) source dir w in
        (dir', rw w.there both, w');
  }

  run_void_db-Dependable :
      Dependable missing (Filled json spaces willing) (run_void_db json spaces now source)
  unfolding run_void_db
  run_void_db-Dependable = record {
    creates = λ dir fresh.
        let (pre, made, names, slices) =
          pre_generated_records-AllSlices json now encodes num_entries map_names map_names-Plain in
        let (db, opened) = willing.obliging.opens dir in
        let (db', ran, grows, present) =
          insert_keyspaces-Grows json spaces willing num_entries pre db slices in
        (
          (close db').1,
          rw fresh (rw (made, opened) (rw ran (or_fatal-ok json spaces willing db'))),
          close-Written json (flat spaces) willing.obliging (
              filled-Holds json spaces willing dir db db' fresh opened grows.right
                (λ m among. present m (subst (Among m) (sym names) among))),
        );
    reads = λ dir w.
        let (dir', both, w') =
          measure_both_in json spaces willing (unchecked) (λ db. refl) source dir w in
        (dir', rw w.there both, w');
  }

  -- From no database on, no run of `runBoltDB` is fatal, if no call of bbolt fails and the identifier of
  -- a record can be read from its JSON. The first run writes the database: in the buckets of the five
  -- maps a record for each of the 163840 indices, and whatever stands under a key of a map has the
  -- identifier of that key, afterwards too. Any number of later runs find every record that they read
  -- with its identifier, and so do any number of rounds of `sequentialOpenBolt` after them.
  pub repeat-run_bolt_db :
      (runs reads : ℕ) (dir : Dir)
      → missing dir ≡ true
      → Fills json spaces willing (run_bolt_db json spaces now source) runs reads dir
  repeat-run_bolt_db = repeat-Filled json spaces willing run_bolt_db-Dependable

  -- The same of `runVoidDB`, which has a transaction for each map.
  repeat-run_void_db :
      (runs reads : ℕ) (dir : Dir)
      → missing dir ≡ true
      → Fills json spaces willing (run_void_db json spaces now source) runs reads dir
  repeat-run_void_db = repeat-Filled json spaces willing run_void_db-Dependable
