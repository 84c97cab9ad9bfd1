-- ===== src/BenchmarkLoad/Stores/Reading.antt =====
-- The runs of the load benchmark find what they have written.
use mathlib.Core.Path.{subst}
use go_persist.Base.{
  ℕ, zero, suc, ◌+◌, ◌≤◌, ◌<◌, ◌≡◌, ◌≢◌, refl, sym, ap, ◌∙◌, Bool, true, false, Option, none, some,
  List, [], ◌∷◌, Bytes, All, codes, arith, inl, inr,
}
use go_persist.BenchmarkLoad.Records.{digits}
use go_persist.BenchmarkLoad.Runs.Inserted.{Among, Right, found, read_lem, each_key-ok}
use go_persist.BenchmarkLoad.Runs.{or_fatal, ◌>>=◌, prefixed_key, expected_id, RecordJson}
use go_persist.BenchmarkLoad.Stores.{
  num_entries, count_up, prepare_keys, read_record_id, measure_one, measure_keys, sequential_open,
}
use go_persist.Env.KeyValue.{KeyValue, Shuffle}
use go_persist.Loading.Routing.{NoColon}

count_up-below : (i n bound : ℕ) → i + n ≤ bound → All (λ j. j < bound) (count_up i n)
unfolding count_up
count_up-below i zero bound most = tt
count_up-below i (suc n) bound most =
    (omega (arith, most), count_up-below (suc i) n bound (omega (arith, most)))

pub prepare_keys-below : (source : Shuffle) → All (λ j. j < num_entries) (prepare_keys source)
unfolding prepare_keys
prepare_keys-below source =
    source.shuffle-All (λ j. j < num_entries) 42 (count_up 0 40_000)
      (count_up-below 0 40_000 num_entries (omega arith))

one_key : prefixed_key (codes "map3") 40_000 ≡ codes "map3:key-40000"
unfolding prefixed_key digits
one_key = refl

pub one_id : expected_id 40_000 ≡ codes "map3-40000"
unfolding digits
one_id = refl

abbrev pub five_maps : List Bytes
five_maps = codes "map1" ∷ codes "map2" ∷ codes "map3" ∷ codes "map4" ∷ codes "map5" ∷ []

module _ (json : RecordJson) (kv : KeyValue) where
  open kv use {Dir, Db, missing, open_db, get, close}

  -- No call fails.
  pub record Obliging : Type 0 where
    pub opens : (dir : Dir) → (db : Db) × (open_db dir ≡ some db)
    pub closes : (db : Db) → (close db).0 ≡ true

  -- The database has a record for each of 163840 indices of each of the five maps, and no others under
  -- their keys: what stands there can be read, and has the identifier of its key.
  pub record Holds (db : Db) : Type 0 where
    pub present :
        (m : Bytes) → Among m five_maps → (j : ℕ) → j < 163_840 → found json get m j db ≢ none
    pub right : (m : Bytes) → NoColon m → (j : ℕ) → Right json m j (found json get m j db)

  pub record Written (dir : Dir) : Type 0 where
    pub there : missing dir ≡ false
    pub holds : (db : Db) → open_db dir ≡ some db → Holds db

  Holds-same : {db db' : Db} → ((j : Bytes) → get j db' ≡ get j db) → Holds db → Holds db'
  Holds-same same h = record {
    present =
        λ m among j bound gone. h.present m among j bound (sym (same (prefixed_key m j)) ∙ gone);
    right = λ m plain j. subst (Right json m j) (sym (same (prefixed_key m j))) (h.right m plain j);
  }

  module _ (obliging : Obliging) where
    pub close-Written : {db : Db} → Holds db → Written (close db).1
    close-Written {db} h = record {
      there = kv.missing-close db (obliging.closes db);
      holds = λ db' opened.
          Holds-same (λ j. kv.get-open_db_closed db db' j (obliging.closes db) opened) h;
    }

    pub or_fatal-ok : (db : Db) → or_fatal (close db) ≡ some (close db).1
    or_fatal-ok db = ap (λ (good : Bool). or_fatal (good, (close db).1)) (obliging.closes db)

    read-ok :
        {db : Db}
        → Holds db
        → (j : ℕ) → j < num_entries
        → read_record_id json kv (prefixed_key (codes "map3") j) (expected_id j) db ≡ some tt
    read-ok {db} h j bound =
        read_lem json get (codes "map3") j db
          (h.present (codes "map3") (inr (inr (inl refl))) j (omega (arith, bound)))
          (h.right (codes "map3") (omega arith) j)

    module _ (closed : Bool × Dir → Option Dir)
        (closed-ok : (db : Db) → closed (close db) ≡ some (close db).1) where
      pub measure_one-Written :
          (dir : Dir)
          → Written dir
          → (dir' : Dir) × (measure_one json kv closed dir ≡ some dir') × Written dir'
      unfolding measure_one
      measure_one-Written dir w =
          let (db, opened) = obliging.opens dir in
          let h = w.holds db opened in
          let reads : read_record_id json kv (codes "map3:key-40000") (codes "map3-40000") db
              ≡ some tt =
            subst (λ k. read_record_id json kv k (codes "map3-40000") db ≡ some tt) one_key
              (subst
                (λ e. read_record_id json kv (prefixed_key (codes "map3") 40_000) e db ≡ some tt)
                one_id (read-ok h 40_000 (omega arith))) in
          (
            (close db).1,
            ap
                  (λ (o : Option Db). o >>= λ db.
                    read_record_id json kv (codes "map3:key-40000") (codes "map3-40000") db >>= λ u.
                    closed (close db))
                  opened
                ∙ ap (λ (o : Option (Unit {0})). o >>= λ u. closed (close db)) reads
                ∙ closed-ok db,
            close-Written h,
          )

      pub measure_keys-Written :
          (keys : List ℕ) (dir : Dir)
          → All (λ j. j < num_entries) keys
          → Written dir
          → (dir' : Dir) × (measure_keys json kv closed keys dir ≡ some dir') × Written dir'
      unfolding measure_keys
      measure_keys-Written keys dir below w =
          let (db, opened) = obliging.opens dir in
          let h = w.holds db opened in
          (
            (close db).1,
            rw opened (rw (each_key-ok _ num_entries keys (read-ok h) below) (closed-ok db)),
            close-Written h,
          )

    -- Any number of sequential reads of a written database succeeds, and leaves it written.
    pub sequential_open-Written :
        (rounds : ℕ) (dir : Dir)
        → Written dir
        → (dir' : Dir) × (sequential_open json kv rounds dir ≡ some dir') × Written dir'
    unfolding sequential_open
    sequential_open-Written zero dir w = (dir, refl, w)
    sequential_open-Written (suc rounds) dir w =
        let (dir₁, one, w₁) = measure_one-Written (or_fatal) or_fatal-ok dir w in
        let (dir₂, more, w₂) = sequential_open-Written rounds dir₁ w₁ in (dir₂, rw one more, w₂)
