-- ===== src/BenchmarkLoad/Runs.antt =====
-- What the runs of the load benchmark share (benchmark-load/load.go). `none` is a `log.Fatal`, or a
-- panic.
pub mod Inserted
pub mod Repeated
use go_persist.Base.{
  ℕ, zero, suc, Bool, Option, none, some, List, [], ◌∷◌, ◌++◌, Bytes, codes, equal, if◌then◌else◌,
}
use go_persist.BenchmarkLoad.Records.{ComplexRecord, create_record, decimal}
use go_persist.Env.Rand.{Rand}

infixl 5 ◌>>=◌
abbrev pub ◌>>=◌ : {A B : Type 0} → Option A → (A → Option B) → Option B
none >>= f = none
some a >>= f = f a

-- `mapNames`
abbrev pub map_names : List Bytes
map_names = codes "map1" ∷ codes "map2" ∷ codes "map3" ∷ codes "map4" ∷ codes "map5" ∷ []

-- `"key-%d"`, `"%s:key-%d"` and `"map3-%d"`
abbrev pub key_name : ℕ → Bytes
key_name i = codes "key-" ++ decimal i

unfoldable pub prefixed_key : Bytes → ℕ → Bytes
prefixed_key map_name i = map_name ++ (codes ":key-" ++ decimal i)

abbrev pub expected_id : ℕ → Bytes
expected_id i = codes "map3-" ++ decimal i

-- `json.Marshal` of a record, and `json.Unmarshal` into one.
pub record RecordJson : Type 0 where
  pub marshal : ComplexRecord → Option Bytes
  pub unmarshal : Bytes → Option ComplexRecord

module _ ⦃rand : Rand⦄ (now : Bytes → ℕ → ℕ) where
  -- `preGeneratedRecords`: the records of a map from `i` on, and those of all maps. `now` is the time at
  -- which each record is made.
  unfoldable pub generate_slice : Bytes → ℕ → ℕ → Option (List ComplexRecord)
  generate_slice name i zero = some []
  generate_slice name i (suc more) = do
    r ← create_record (now name i) name i
    rest ← generate_slice name (suc i) more
    some (r ∷ rest)

  unfoldable pub pre_generated_records : ℕ → List Bytes → Option (List (Bytes × List ComplexRecord))
  unfolding generate_slice
  pre_generated_records n [] = some []
  pre_generated_records n (name ∷ names) = do
    slice ← generate_slice name 0 n
    rest ← pre_generated_records n names
    some ((name, slice) ∷ rest)

module _ {S : Type 0} (put : Bytes → ℕ → ComplexRecord → S → Option S) where
  -- The loops that insert the records, where `put` is their body.
  unfoldable pub insert_slice : Bytes → ℕ → List ComplexRecord → S → Option S
  insert_slice name i [] s = some s
  insert_slice name i (r ∷ rs) s = put name i r s >>= insert_slice name (suc i) rs

  unfoldable pub insert_maps : List (Bytes × List ComplexRecord) → S → Option S
  unfolding insert_slice
  insert_maps [] s = some s
  insert_maps ((name, slice) ∷ rest) s = insert_slice name 0 slice s >>= insert_maps rest

-- `if record.ID != expected`
abbrev pub check_id : Bytes → ComplexRecord → Option (Unit {0})
check_id expected r = if equal r.id expected then some tt else none

-- The loop over the keys, where `read` is its body.
unfoldable pub each_key : (ℕ → Option (Unit {0})) → List ℕ → Option (Unit {0})
each_key read [] = some tt
each_key read (i ∷ is) = read i >>= λ u. each_key read is

-- A `Close` whose error is fatal, and one whose error is dropped.
abbrev pub or_fatal : {D : Type 0} → Bool × D → Option D
or_fatal (good, dir) = if good then some dir else none

abbrev pub unchecked : {D : Type 0} → Bool × D → Option D
unchecked (good, dir) = some dir
