-- ===== src/BenchmarkLoad/Spaces/Runs.antt =====
-- The runs of the load benchmark on bbolt and voidDB, one after the other.
use mathlib.Core.Path.{subst}
use go_persist.Base.{
  ℕ, zero, suc, ◌<◌, ◌≡◌, ◌≢◌, refl, ap, ◌∙◌, Bool, true, Option, none, some, List, Bytes, All,
  codes, arith,
}
use go_persist.BenchmarkLoad.Records.{digits}
use go_persist.BenchmarkLoad.Runs.Inserted.{Among, Right, found, each_key-ok}
use go_persist.BenchmarkLoad.Runs.{or_fatal, ◌>>=◌, key_name, RecordJson}
use go_persist.BenchmarkLoad.Spaces.Reading.{flat, flat_get, Willing, read_space-ok}
use go_persist.BenchmarkLoad.Spaces.{
  read_space_id, measure_one_in, measure_keys_in, sequential_open_in,
}
use go_persist.BenchmarkLoad.Stores.Reading.{
  Holds, Written, close-Written, prepare_keys-below, one_id, five_maps,
}
use go_persist.BenchmarkLoad.Runs.Repeated.{repeat, Dependable, repeat-created}
use go_persist.BenchmarkLoad.Stores.{num_entries, prepare_keys}
use go_persist.Env.KeyValue.{Spaces, Shuffle}
use go_persist.Loading.Routing.{NoColon}

one_name : key_name 40_000 ≡ codes "key-40000"
unfolding digits
one_name = refl

module _ (json : RecordJson) (spaces : Spaces) (willing : Willing json spaces) where
  open spaces use {Dir, Db, missing, open_db, close, begin, commit}

  abbrev pub Filled : Dir → Type 0
  Filled dir = Written json (flat spaces) dir

  pub or_fatal-ok : (db : Db) → or_fatal (close db) ≡ some (close db).1
  or_fatal-ok db = ap (λ (good : Bool). or_fatal (good, (close db).1)) (willing.obliging.closes db)

  module _ (closed : Bool × Dir → Option Dir)
      (closed-ok : (db : Db) → closed (close db) ≡ some (close db).1) where
    measure_one_in-Filled :
        (dir : Dir)
        → Filled dir
        → (dir' : Dir) × (measure_one_in json spaces closed dir ≡ some dir') × Filled dir'
    unfolding measure_one_in
    measure_one_in-Filled dir w =
        let (db, opened) = willing.obliging.opens dir in
        let h = w.holds db opened in
        let reads : read_space_id json spaces (codes "key-40000") (codes "map3-40000") db
            ≡ some tt =
          subst (λ k. read_space_id json spaces k (codes "map3-40000") db ≡ some tt) one_name
            (subst (λ e. read_space_id json spaces (key_name 40_000) e db ≡ some tt) one_id
              (read_space-ok json spaces willing db h 40_000 (omega arith))) in
        (
          (close db).1,
          ap
                (λ (o : Option Db). o >>= λ db.
                  read_space_id json spaces (codes "key-40000") (codes "map3-40000") db >>= λ u.
                  closed (close db))
                opened
              ∙ ap (λ (o : Option (Unit {0})). o >>= λ u. closed (close db)) reads
              ∙ closed-ok db,
          close-Written json (flat spaces) willing.obliging h,
        )

    measure_keys_in-Filled :
        (keys : List ℕ) (dir : Dir)
        → All (λ j. j < num_entries) keys
        → Filled dir
        → (dir' : Dir) × (measure_keys_in json spaces closed keys dir ≡ some dir') × Filled dir'
    unfolding measure_keys_in
    measure_keys_in-Filled keys dir below w =
        let (db, opened) = willing.obliging.opens dir in
        let h = w.holds db opened in
        (
          (close db).1,
          rw opened (
              rw (each_key-ok _ num_entries keys (read_space-ok json spaces willing db h) below)
                (closed-ok db)),
          close-Written json (flat spaces) willing.obliging h,
        )

    pub measure_both_in :
        (source : Shuffle) (dir : Dir)
        → Filled dir
        → (dir' : Dir) × ((measure_one_in json spaces closed dir
              >>= measure_keys_in json spaces closed (prepare_keys source))
            ≡ some dir')
          × Filled dir'
    measure_both_in source dir w =
        let (dir₁, one, w₁) = measure_one_in-Filled dir w in
        let (dir₂, all, w₂) =
          measure_keys_in-Filled (prepare_keys source) dir₁ (prepare_keys-below source) w₁ in
        (
          dir₂,
          ap (λ (o : Option Dir). o >>= measure_keys_in json spaces closed (prepare_keys source))
                one
              ∙ all,
          w₂,
        )

  sequential_open_in-Filled :
      (rounds : ℕ) (dir : Dir)
      → Filled dir
      → (dir' : Dir) × (sequential_open_in json spaces rounds dir ≡ some dir') × Filled dir'
  unfolding sequential_open_in
  sequential_open_in-Filled zero dir w = (dir, refl, w)
  sequential_open_in-Filled (suc rounds) dir w =
      let (dir₁, one, w₁) = measure_one_in-Filled (or_fatal) or_fatal-ok dir w in
      let (dir₂, more, w₂) = sequential_open_in-Filled rounds dir₁ w₁ in (dir₂, rw one more, w₂)

  -- What a run has written to a database that was missing.
  pub filled-Holds :
      (dir : Dir) (db db' : Db)
      → missing dir ≡ true
      → open_db dir ≡ some db
      → ((m : Bytes)
          → NoColon m
          → (j : ℕ) → Right json m j (found json (flat_get json spaces) m j db)
          → Right json m j (found json (flat_get json spaces) m j db'))
      → ((m : Bytes)
          → Among m five_maps
          → (j : ℕ) → j < num_entries
          → found json (flat_get json spaces) m j db' ≢ none)
      → Holds json (flat spaces) db'
  filled-Holds dir db db' fresh opened right present = record {
    present = λ m among j bound. present m among j (omega (arith, bound));
    right = λ m plain j.
        right m plain j
          (λ line there. cc (spaces.get-open_db_missing dir db _ _ fresh opened, there));
  }

  -- What runs one after the other come to, and reads of the database after them: none is fatal, and
  -- the database has all records.
  abbrev pub Fills : (Dir → Option Dir) → ℕ → ℕ → Dir → Type 0
  Fills run runs reads dir =
      (dir' dir'' : Dir) × (db : Db) × (repeat run (suc runs) dir ≡ some dir')
      × (open_db dir' ≡ some db)
      × Holds json (flat spaces) db
      × (sequential_open_in json spaces reads dir' ≡ some dir'')

  pub repeat-Filled :
      {run : Dir → Option Dir}
      → Dependable missing Filled run
      → (runs reads : ℕ) (dir : Dir) → missing dir ≡ true
      → Fills run runs reads dir
  repeat-Filled d runs reads dir fresh =
      let (dir₁, ran, w) = repeat-created missing Filled d runs dir fresh in
      let (dir₂, rest, _) = sequential_open_in-Filled reads dir₁ w in
      let (db, opened) = willing.obliging.opens dir₁ in
      (dir₁, dir₂, db, ran, opened, w.holds db opened, rest)
