-- ===== src/BenchmarkLoad/Spaces/Reading.antt =====
-- The runs of the load benchmark on bbolt and voidDB find what they have written.
use mathlib.Core.Path.{subst}
use go_persist.Base.{
  ℕ, ◌<◌, ◌≡◌, ◌≢◌, refl, sym, ap, ◌∙◌, ◌&&◌, Bool, true, Option, none, some, List, [], ◌∷◌, Bytes,
  codes, arith, map, inl, inr, equal, equal_iff, Bool-cases, if◌then◌else◌,
}
use go_persist.BenchmarkLoad.Records.{ComplexRecord}
use go_persist.BenchmarkLoad.Runs.Inserted.{
  Plain, Right, found, Grows, Grows-refl, Grows-same, Grows-trans, Puts, Among, AllSlices,
  insert_slice-Grows, read_lem,
}
use go_persist.BenchmarkLoad.Runs.{
  ◌>>=◌, prefixed_key, key_name, expected_id, check_id, RecordJson, insert_slice,
}
use go_persist.BenchmarkLoad.Spaces.{put_in, insert_buckets, insert_keyspaces, read_space_id}
use go_persist.BenchmarkLoad.Stores.Reading.{Obliging, Holds}
use go_persist.BenchmarkLoad.Stores.{num_entries}
use go_persist.Env.KeyValue.{KeyValue, Spaces}
use go_persist.Loading.Routing.{route-full_key, equal-full_key}
use go_persist.Loading.{route}

equal_swap : (a b : Bytes) → equal a b ≡ equal b a
equal_swap a b = elim (Bool-cases (equal a b)) [
  | inl same ↦ same ∙ sym ((equal_iff b a).1 (sym ((equal_iff a b).0 same)))
  | inr differ ↦ elim (Bool-cases (equal b a)) [
    | inr other ↦ differ ∙ sym other
    | inl same ↦ cc (sym ((equal_iff a b).1 (sym ((equal_iff b a).0 same))) ∙ differ)
  ]
]

-- A key in a space, written with the name of the space in front.
route-prefixed_key :
    (name : Bytes) (i : ℕ) → Plain name → route (prefixed_key name i) ≡ (name, key_name i)
unfolding prefixed_key
route-prefixed_key name i plain = route-full_key name (key_name i) plain.0

equal-prefixed_key :
    (name : Bytes) (i : ℕ) (j : Bytes)
    → Plain name
    → (equal (route j).0 name && equal (route j).1 (key_name i)) ≡ equal (prefixed_key name i) j
unfolding prefixed_key
equal-prefixed_key name i j plain =
    sym (equal-full_key name j (key_name i) plain.0 (inl plain.1))
    ∙ equal_swap j (prefixed_key name i)

-- The same database with the keys of all spaces side by side.
abbrev pub flat : Spaces → KeyValue
flat spaces = record {
  Dir = spaces.Dir;
  Db = spaces.Db;
  missing = spaces.missing;
  open_db = spaces.open_db;
  get = λ key db. spaces.get (route key).0 (route key).1 db;
  close = spaces.close;
  get-open_db_missing = λ dir db j. spaces.get-open_db_missing dir db (route j).0 (route j).1;
  get-open_db_closed = λ db db' j. spaces.get-open_db_closed db db' (route j).0 (route j).1;
  missing-close = spaces.missing-close;
}

module _ (json : RecordJson) (spaces : Spaces) where
  open json use {marshal, unmarshal}
  open spaces use {
    Dir, Db, Txn, missing, open_db, close, begin, enter, put, commit, has_space, get, shows,
  }

  abbrev pub flat_shows : Bytes → Txn → Option Bytes
  flat_shows key txn = shows (route key).0 (route key).1 txn

  abbrev pub flat_get : Bytes → Db → Option Bytes
  flat_get key db = get (route key).0 (route key).1 db

  -- No call fails.
  pub record Willing : Type 0 where
    pub obliging : Obliging json (flat spaces)
    pub enters : (name : Bytes) (txn : Txn) → (txn' : Txn) × (enter name txn ≡ some txn')
    pub puts : (name key v : Bytes) (txn : Txn) → (txn' : Txn) × (put name key v txn ≡ some txn')
    pub commits : (txn : Txn) → (db : Db) × (commit txn ≡ some db)

  module _ (willing : Willing) where
    put_in-Puts : Puts json Txn flat_shows (put_in json spaces)
    put_in-Puts name i r txn line plain json_of =
        let (txn', ran) = willing.puts name (key_name i) line txn in
        (
          txn',
          ap (λ (o : Option Bytes). o >>= λ encoded. put name (key_name i) encoded txn) json_of
              ∙ ran,
          λ j.
              spaces.shows-put name (key_name i) line txn txn' (route j).0 (route j).1 ran
              ∙ ap (λ (b : Bool). if b then some line else flat_shows j txn)
                  (equal-prefixed_key name i j plain),
        )

    -- A space is entered and a map inserted.
    fill_lem :
        (name : Bytes) (n : ℕ) (rs : List ComplexRecord) (txn : Txn)
        → AllSlices json n ((name, rs) ∷ [])
        → (space : Txn) × (enter name txn ≡ some space)
          × ((txn' : Txn) × (insert_slice (put_in json spaces) name 0 rs space ≡ some txn')
              × Grows json flat_shows txn txn'
              × ((m : Bytes) → name ≡ m → (j : ℕ) → j < n → found json flat_shows m j txn' ≢ none))
    fill_lem name n rs txn ((plain, (long, all)), _) =
        let (txn₁, entered) = willing.enters name txn in
        let g₁ =
          Grows-same json flat_shows
            (λ j. spaces.shows-enter name txn txn₁ (route j).0 (route j).1 entered) in
        let (txn₂, ran, g₂, mine) =
          insert_slice-Grows json flat_shows (put_in json spaces) put_in-Puts name 0 rs txn₁ plain
            all in
        (
          txn₁,
          entered,
          (
            txn₂,
            ran,
            Grows-trans json flat_shows g₁ g₂,
            λ m same j bound. mine m same j (omega arith) (omega (arith, long, bound)),
          ),
        )

    pub insert_buckets-Grows :
        (n : ℕ) (pre : List (Bytes × List ComplexRecord)) (txn : Txn)
        → AllSlices json n pre
        → (txn' : Txn) × (insert_buckets json spaces pre txn ≡ some txn')
          × Grows json flat_shows txn txn'
          × ((m : Bytes)
              → Among m (map (λ e. e.0) pre)
              → (j : ℕ) → j < n
              → found json flat_shows m j txn' ≢ none)
    unfolding insert_buckets
    insert_buckets-Grows n [] txn slices =
        (txn, refl, Grows-refl json flat_shows, λ m among. absurd among)
    insert_buckets-Grows n ((name, rs) ∷ rest) txn (first, slices) =
        let (space, entered, (txn₁, ran, g₁, mine)) = fill_lem name n rs txn (first, tt) in
        let (txn₂, more, g₂, later) = insert_buckets-Grows n rest txn₁ slices in
        (
          txn₂,
          rw entered (rw ran more),
          Grows-trans json flat_shows g₁ g₂,
          λ m among j bound. elim among [
            | inl here ↦ g₂.stays m j (mine m here j bound)
            | inr below ↦ later m below j bound
          ],
        )

    -- The loop that commits a transaction for each map.
    pub insert_keyspaces-Grows :
        (n : ℕ) (pre : List (Bytes × List ComplexRecord)) (db : Db)
        → AllSlices json n pre
        → (db' : Db) × (insert_keyspaces json spaces pre db ≡ some db')
          × Grows json flat_get db db'
          × ((m : Bytes)
              → Among m (map (λ e. e.0) pre)
              → (j : ℕ) → j < n
              → found json flat_get m j db' ≢ none)
    unfolding insert_keyspaces
    insert_keyspaces-Grows n [] db slices =
        (db, refl, Grows-refl json flat_get, λ m among. absurd among)
    insert_keyspaces-Grows n ((name, rs) ∷ rest) db (first, slices) =
        let (space, entered, (txn, ran, g, mine)) = fill_lem name n rs (begin db) (first, tt) in
        let (db₁, done) = willing.commits txn in
        let before : (j : Bytes) → flat_shows j (begin db) ≡ flat_get j db =
          λ j. spaces.shows-begin db (route j).0 (route j).1 in
        let after : (j : Bytes) → flat_get j db₁ ≡ flat_shows j txn =
          λ j. spaces.get-commit txn db₁ (route j).0 (route j).1 done in
        let g₁ : Grows json flat_get db db₁ = record {
          right = λ m plain j right.
              subst (Right json m j) (sym (after (prefixed_key m j))) (
                g.right m plain j (subst (Right json m j) (sym (before (prefixed_key m j))) right));
          stays = λ m j there gone.
              g.stays m j (λ none. there (sym (before (prefixed_key m j)) ∙ none))
                (sym (after (prefixed_key m j)) ∙ gone);
        } in
        let (db₂, more, g₂, later) = insert_keyspaces-Grows n rest db₁ slices in
        (
          db₂,
          rw entered (rw ran (rw done more)),
          Grows-trans json flat_get g₁ g₂,
          λ m among j bound. elim among [
            | inl here ↦
                g₂.stays m j (λ gone. mine m here j bound (sym (after (prefixed_key m j)) ∙ gone))
            | inr below ↦ later m below j bound
          ],
        )

    -- What a record of "map3" is read by.
    pub read_space-ok :
        (db : Db)
        → Holds json (flat spaces) db
        → (j : ℕ) → j < num_entries
        → read_space_id json spaces (key_name j) (expected_id j) db ≡ some tt
    read_space-ok db h j bound =
        let routes = route-prefixed_key (codes "map3") j (omega arith, λ e. cc) in
        let same : flat_get (prefixed_key (codes "map3") j) db
            ≡ get (codes "map3") (key_name j) db =
          ap (λ (r : Bytes × Bytes). get r.0 r.1 db) routes in
        let present = h.present (codes "map3") (inr (inr (inl refl))) j (omega (arith, bound)) in
        let there : has_space (codes "map3") db ≡ true =
          spaces.has_space-get (codes "map3") (key_name j) db (λ gone. present (same ∙ gone)) in
        rw there (
          subst
            (λ (o : Option Bytes).
              (o >>= λ value. unmarshal value >>= λ r. check_id (expected_id j) r) ≡ some tt)
            same
            (read_lem json flat_get (codes "map3") j db present
              (h.right (codes "map3") (omega arith) j)))
