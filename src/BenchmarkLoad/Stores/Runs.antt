-- ===== src/BenchmarkLoad/Stores/Runs.antt =====
-- The runs of the load benchmark on the stores whose keys have the name of a map in front, one after
-- the other.
use go_persist.Base.{
  ℕ, suc, ◌<◌, ◌≡◌, ◌≢◌, refl, sym, ap, ◌∙◌, Bool, true, Option, none, some, Bytes, All, arith,
}
use mathlib.Core.Path.{subst}
use go_persist.BenchmarkLoad.Records.{ComplexRecord, create_record}
use go_persist.BenchmarkLoad.Runs.Inserted.{
  Plain, Encodes, Right, found, Puts, Among, insert_maps-Grows, pre_generated_records-AllSlices,
}
use go_persist.BenchmarkLoad.Runs.{
  or_fatal, unchecked, ◌>>=◌, map_names, prefixed_key, RecordJson, pre_generated_records,
  insert_maps,
}
use go_persist.BenchmarkLoad.Runs.Repeated.{repeat, Dependable, repeat-created}
use go_persist.BenchmarkLoad.Stores.Reading.{
  Obliging, Holds, Written, close-Written, or_fatal-ok, measure_one-Written, measure_keys-Written,
  sequential_open-Written, prepare_keys-below, five_maps,
}
use go_persist.BenchmarkLoad.Stores.{
  num_entries, prepare_keys, measure_one, measure_keys, sequential_open, put_batched, run_bunt_db,
  run_badger,
}
use go_persist.Env.KeyValue.{KeyValue, Batched, Shuffle}
use go_persist.Env.Rand.{Rand}
use go_persist.Loading.Routing.{NoColon}

pub map_names-Plain : All Plain map_names
map_names-Plain = (
  (omega arith, λ e. cc),
  (
    (omega arith, λ e. cc),
    ((omega arith, λ e. cc), ((omega arith, λ e. cc), ((omega arith, λ e. cc), tt))),
  ),
)

module _ (json : RecordJson) (kv : KeyValue) (obliging : Obliging json kv) where
  open json use {marshal}
  open kv use {Dir, Db, missing, open_db, get, close}

  -- What runs one after the other come to, and reads of the database after them: none is fatal, and
  -- the database has all records.
  abbrev pub Succeeds : (Dir → Option Dir) → ℕ → ℕ → Dir → Type 0
  Succeeds run runs reads dir =
      (dir' dir'' : Dir) × (db : Db) × (repeat run (suc runs) dir ≡ some dir')
      × (open_db dir' ≡ some db)
      × Holds json kv db
      × (sequential_open json kv reads dir' ≡ some dir'')

  repeat-Succeeds :
      {run : Dir → Option Dir}
      → Dependable missing (Written json kv) run
      → (runs reads : ℕ) (dir : Dir) → missing dir ≡ true
      → Succeeds run runs reads dir
  repeat-Succeeds d runs reads dir fresh =
      let (dir₁, ran, w) = repeat-created missing (Written json kv) d runs dir fresh in
      let (dir₂, rest, _) = sequential_open-Written json kv obliging reads dir₁ w in
      let (db, opened) = obliging.opens dir₁ in
      (dir₁, dir₂, db, ran, opened, w.holds db opened, rest)

  fresh-Right :
      (dir : Dir) (db : Db)
      → missing dir ≡ true
      → open_db dir ≡ some db
      → (m : Bytes) (j : ℕ) → Right json m j (found json get m j db)
  fresh-Right dir db fresh opened m j line there =
      cc (kv.get-open_db_missing dir db _ fresh opened, there)

  -- What a loop that starts with an empty database has written.
  Grows-Holds :
      (dir : Dir) (db db' : Db)
      → missing dir ≡ true
      → open_db dir ≡ some db
      → ((m : Bytes)
          → NoColon m
          → (j : ℕ) → Right json m j (found json get m j db)
          → Right json m j (found json get m j db'))
      → ((m : Bytes)
          → Among m five_maps
          → (j : ℕ) → j < num_entries
          → found json get m j db' ≢ none)
      → Holds json kv db'
  Grows-Holds dir db db' fresh opened right present = record {
    present = λ m among j bound. present m among j (omega (arith, bound));
    right = λ m plain j. right m plain j (fresh-Right dir db fresh opened m j);
  }

  -- The two measured reads.
  measure_both :
      (source : Shuffle) (closed : Bool × Dir → Option Dir)
      → ((db : Db) → closed (close db) ≡ some (close db).1)
      → (dir : Dir) → Written json kv dir
      → (dir' : Dir) × ((measure_one json kv closed dir
            >>= measure_keys json kv closed (prepare_keys source))
          ≡ some dir')
        × Written json kv dir'
  measure_both source closed closed-ok dir w =
      let (dir₁, one, w₁) = measure_one-Written json kv obliging closed closed-ok dir w in
      let (dir₂, all, w₂) =
        measure_keys-Written json kv obliging closed closed-ok (prepare_keys source) dir₁
          (prepare_keys-below source) w₁ in
      (
        dir₂,
        ap (λ (o : Option Dir). o >>= measure_keys json kv closed (prepare_keys source)) one ∙ all,
        w₂,
      )

  module _ (batched : Batched kv)
      (sets : (key v : Bytes) (b : batched.Batch)
        → (b' : batched.Batch) × (batched.set key v b ≡ some b')) where
    put_batched-Puts : Puts json batched.Batch batched.shows (put_batched json kv batched)
    put_batched-Puts name i r b line plain json_of =
        let key = prefixed_key name i in
        let (b', ran) = sets key line b in
        (
          b',
          ap (λ (o : Option Bytes). o >>= λ encoded. batched.set key encoded b) json_of ∙ ran,
          λ j. batched.shows-set key line b b' j ran,
        )

  module _ ⦃rand : Rand⦄ (now : Bytes → ℕ → ℕ) (source : Shuffle)
      (encodes : (name : Bytes) (i : ℕ) (r : ComplexRecord)
        → create_record (now name i) name i ≡ some r
        → Encodes json r) where
    module _ (batched : Batched kv)
        (sets : (key v : Bytes) (b : batched.Batch)
          → (b' : batched.Batch) × (batched.set key v b ≡ some b'))
        (commits : (b : batched.Batch) → (db : Db) × (batched.commit b ≡ some db)) where
      -- The write phase.
      write_batch : Dir → Option Dir
      write_batch dir = do
        pre_generated ← pre_generated_records now num_entries map_names
        db ← open_db dir
        batch ← insert_maps (put_batched json kv batched) pre_generated (batched.begin db)
        db' ← batched.commit batch
        or_fatal (close db')

      write_batch-Written :
          (dir : Dir)
          → missing dir ≡ true
          → (dir' : Dir) × (write_batch dir ≡ some dir') × Written json kv dir'
      unfolding write_batch
      write_batch-Written dir fresh =
          let (pre, made, names, slices) =
            pre_generated_records-AllSlices json now encodes num_entries map_names
              map_names-Plain in
          let (db, opened) = obliging.opens dir in
          let (b, ran, grows, present) =
            insert_maps-Grows json batched.shows (put_batched json kv batched)
              (put_batched-Puts batched sets) num_entries pre (batched.begin db) slices in
          let (db', done) = commits b in
          let before : (j : Bytes) → batched.shows j (batched.begin db) ≡ get j db =
            batched.shows-begin db in
          let after : (j : Bytes) → get j db' ≡ batched.shows j b =
            λ j. batched.get-commit b db' j done in
          (
            (close db').1,
            rw (made, opened) (rw ran (rw done (or_fatal-ok json kv obliging db'))),
            close-Written json kv obliging (
                Grows-Holds dir db db' fresh opened
                  (λ m plain j right. subst (Right json m j) (sym (after (prefixed_key m j))) (
                    grows.right m plain j
                      (subst (Right json m j) (sym (before (prefixed_key m j))) right)))
                  (λ m among j bound gone.
                    present m (subst (Among m) (sym names) among) j bound
                      (sym (after (prefixed_key m j)) ∙ gone))),
          )

      run_bunt_db-Dependable :
          Dependable missing (Written json kv) (run_bunt_db json kv now source batched)
      unfolding run_bunt_db write_batch
      run_bunt_db-Dependable = record {
        creates = λ dir fresh.
            let (dir', writes, w) = write_batch-Written dir fresh in (dir', rw fresh writes, w);
        reads = λ dir w.
            let (dir', both, w') = measure_both source (unchecked) (λ db. refl) dir w in
            (dir', rw w.there both, w');
      }

      run_badger-Dependable :
          Dependable missing (Written json kv) (run_badger json kv now source batched)
      unfolding run_badger write_batch
      run_badger-Dependable = record {
        creates = λ dir fresh.
            let (dir', writes, w) = write_batch-Written dir fresh in (dir', rw fresh writes, w);
        reads = λ dir w.
            let (dir', both, w') = measure_both source (unchecked) (λ db. refl) dir w in
            (dir', rw w.there both, w');
      }

      -- The same of `runBuntDB`, whose writes are one transaction.
      run_bunt_db-Succeeds :
          (runs reads : ℕ) (dir : Dir)
          → missing dir ≡ true
          → Succeeds (run_bunt_db json kv now source batched) runs reads dir
      run_bunt_db-Succeeds = repeat-Succeeds run_bunt_db-Dependable

      -- From no database on, no run of `runBadger` is fatal, if no call of badger fails and the
      -- identifier of a record can be read from its JSON. The first run writes the database: for each
      -- of the five maps and each of the 163840 indices a record, and whatever stands under a key of
      -- a map has the identifier of that key, afterwards too. Any number of later runs find every
      -- record that they read with its identifier, and so do any number of rounds of
      -- `sequentialOpenBadger` after them.
      pub run_badger-Succeeds :
          (runs reads : ℕ) (dir : Dir)
          → missing dir ≡ true
          → Succeeds (run_badger json kv now source batched) runs reads dir
      run_badger-Succeeds = repeat-Succeeds run_badger-Dependable
