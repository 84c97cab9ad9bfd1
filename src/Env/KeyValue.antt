-- ===== src/Env/KeyValue.antt =====
-- The key-value stores that the load benchmark runs beside go-persist, as far as it uses them.
use go_persist.Base.{
  ℕ, ◌≡◌, ◌≢◌, ◌&&◌, Bool, true, false, Option, none, some, List, Bytes, All, equal, if◌then◌else◌,
}

-- A database in one file or directory: github.com/cockroachdb/pebble, github.com/tidwall/buntdb,
-- github.com/dgraph-io/badger/v4. An error is `none`, or `false`.
pub record KeyValue : Type 1 where
  -- What is at the path of a database, and an open database.
  pub Dir : Type 0
  pub Db : Type 0
  -- `errors.Is(err, os.ErrNotExist)` for `_, err := os.Stat(path)`.
  pub missing : Dir → Bool
  -- `Open` creates the database if there is none.
  pub open_db : Dir → Option Db
  -- `Get`, in a read transaction where the store has them. The bytes of a value are valid while the
  -- transaction lasts, for pebble until its closer is closed; the length stays.
  pub get : Bytes → Db → Option Bytes
  -- `Close`: whether it has returned nil, and what it leaves at the path.
  pub close : Db → Bool × Dir
  pub get-open_db_missing :
      (dir : Dir) (db : Db) (j : Bytes)
      → missing dir ≡ true
      → open_db dir ≡ some db
      → get j db ≡ none
  pub get-open_db_closed :
      (db db' : Db) (j : Bytes)
      → (close db).0 ≡ true
      → open_db (close db).1 ≡ some db'
      → get j db' ≡ get j db
  pub missing-close : (db : Db) → (close db).0 ≡ true → missing (close db).1 ≡ false

-- Writes that go to the database one by one: `Set` of pebble.
pub record Direct (kv : KeyValue) : Type 0 where
  pub set : Bytes → Bytes → kv.Db → Option kv.Db
  pub get-set :
      (key v : Bytes) (db db' : kv.Db) (j : Bytes)
      → set key v db ≡ some db'
      → kv.get j db' ≡ (if equal key j then some v else kv.get j db)

-- Writes that take effect together: the transaction of `Update` of buntdb, with its `Set`, and the
-- `WriteBatch` of badger, with `Set` and `Flush`. `shows` is what a key has once they take effect.
pub record Batched (kv : KeyValue) : Type 1 where
  pub Batch : Type 0
  pub begin : kv.Db → Batch
  pub set : Bytes → Bytes → Batch → Option Batch
  pub commit : Batch → Option kv.Db
  pub shows : Bytes → Batch → Option Bytes
  pub shows-begin : (db : kv.Db) (j : Bytes) → shows j (begin db) ≡ kv.get j db
  pub shows-set :
      (key v : Bytes) (b b' : Batch) (j : Bytes)
      → set key v b ≡ some b'
      → shows j b' ≡ (if equal key j then some v else shows j b)
  pub get-commit :
      (b : Batch) (db : kv.Db) (j : Bytes) → commit b ≡ some db → kv.get j db ≡ shows j b

-- A database with keys in named spaces: the buckets of go.etcd.io/bbolt, the keyspaces of
-- github.com/voidDB/voidDB. `shows` is what a key has once the transaction is committed.
pub record Spaces : Type 1 where
  pub Dir : Type 0
  pub Db : Type 0
  pub missing : Dir → Bool
  -- `bolt.Open`; `NewVoid` or `OpenVoid`.
  pub open_db : Dir → Option Db
  pub close : Db → Bool × Dir
  -- The transaction of an `Update`: `CreateBucketIfNotExists` or `OpenCursor`, `Put`, and the commit when
  -- the function returns nil.
  pub Txn : Type 0
  pub begin : Db → Txn
  pub enter : Bytes → Txn → Option Txn
  pub put : Bytes → Bytes → Bytes → Txn → Option Txn
  pub commit : Txn → Option Db
  pub shows : Bytes → Bytes → Txn → Option Bytes
  -- In a `View`: `Bucket` is not nil, or `OpenCursor` returns no error; and `Get`.
  pub has_space : Bytes → Db → Bool
  pub get : Bytes → Bytes → Db → Option Bytes
  pub get-open_db_missing :
      (dir : Dir) (db : Db) (b j : Bytes)
      → missing dir ≡ true
      → open_db dir ≡ some db
      → get b j db ≡ none
  pub get-open_db_closed :
      (db db' : Db) (b j : Bytes)
      → (close db).0 ≡ true
      → open_db (close db).1 ≡ some db'
      → get b j db' ≡ get b j db
  pub missing-close : (db : Db) → (close db).0 ≡ true → missing (close db).1 ≡ false
  pub shows-begin : (db : Db) (b j : Bytes) → shows b j (begin db) ≡ get b j db
  pub shows-enter :
      (name : Bytes) (t t' : Txn) (b j : Bytes)
      → enter name t ≡ some t'
      → shows b j t' ≡ shows b j t
  pub shows-put :
      (name key v : Bytes) (t t' : Txn) (b j : Bytes)
      → put name key v t ≡ some t'
      → shows b j t' ≡ (if equal b name && equal j key then some v else shows b j t)
  pub get-commit : (t : Txn) (db : Db) (b j : Bytes) → commit t ≡ some db → get b j db ≡ shows b j t
  pub has_space-get : (b j : Bytes) (db : Db) → get b j db ≢ none → has_space b db ≡ true

-- `rand.Seed(seed)`, then `rand.Shuffle` with the swaps of a slice: the same elements in another
-- order.
pub record Shuffle : Type 1 where
  pub shuffle : ℕ → List ℕ → List ℕ
  pub shuffle-All : (P : ℕ → Type 0) (seed : ℕ) (l : List ℕ) → All P l → All P (shuffle seed l)
