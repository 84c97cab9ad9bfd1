-- ===== src/Tests/Engines.antt =====
-- The runs of the load benchmark on other stores, at a concrete input: a database is a function from keys
-- to values.
use go_persist.Base.{
  Bool, Bytes, Option, [], ap, arith, equal, false, if◌then◌else◌, length, none, refl, some, suc,
  sym, true, zero, ℕ, ◌&&◌, ◌∙◌, ◌∷◌, ◌≡◌,
}
use go_persist.BenchmarkLoad.Records.{ComplexRecord}
use go_persist.BenchmarkLoad.Runs.Inserted.{Encodes}
use go_persist.BenchmarkLoad.Runs.{RecordJson}
use go_persist.BenchmarkLoad.Spaces.Reading.{Willing}
use go_persist.BenchmarkLoad.Spaces.Repeated.{repeat-run_bolt_db}
use go_persist.BenchmarkLoad.Spaces.{run_bolt_db}
use go_persist.BenchmarkLoad.Spaces.Runs.{Fills}
use go_persist.BenchmarkLoad.Stores.Reading.{Obliging}
use go_persist.BenchmarkLoad.Stores.Runs.{Succeeds, run_badger-Succeeds}
use go_persist.BenchmarkLoad.Stores.{run_badger}
use go_persist.BenchmarkLoad.Files.Repeated.{StoresFiles, repeat-run_badger_files}
use go_persist.BenchmarkLoad.Files.{num_files, precompute_payloads, run_badger_files}
use go_persist.Env.Rand.{Payloads}
use go_persist.Env.KeyValue.{KeyValue, Batched, Spaces, Shuffle}
use go_persist.Tests.Drawing.{least}

abbrev Keys : Type 0
Keys = Bytes → Option Bytes

abbrev no_keys : Keys
no_keys key = none

abbrev with_key : Bytes → Bytes → Keys → Keys
with_key key v db j = if equal key j then some v else db j

-- Nothing is at the path, or a database.
abbrev is_none : Option Keys → Bool
is_none none = true
is_none (some db) = false

abbrev opened : Option Keys → Keys
opened none = no_keys
opened (some db) = db

opened-missing : (dir : Option Keys) (j : Bytes) → is_none dir ≡ true → opened dir j ≡ none
opened-missing none j fresh = refl
opened-missing (some db) j fresh = cc

apply_some : {a b : Keys} (j : Bytes) → some a ≡ some b → b j ≡ a j
apply_some {a} j e = ap (λ (o : Option Keys). opened o j) (sym e)

abbrev kv : KeyValue
kv = record {
  Dir = Option Keys;
  Db = Keys;
  missing = is_none;
  open_db = λ dir. some (opened dir);
  get = λ key db. db key;
  close = λ db. (true, some db);
  get-open_db_missing = λ dir db j fresh e. apply_some j e ∙ opened-missing dir j fresh;
  get-open_db_closed = λ db db' j good e. apply_some j e;
  missing-close = λ db good. refl;
}

kv-Obliging : {json : RecordJson} → Obliging json kv
kv-Obliging = record { opens = λ dir. (opened dir, refl); closes = λ db. refl }

abbrev batched : Batched kv
batched = record {
  Batch = Keys;
  begin = λ db. db;
  set = λ key v b. some (with_key key v b);
  commit = λ b. some b;
  shows = λ key b. b key;
  shows-begin = λ db j. refl;
  shows-set = λ key v b b' j e. apply_some j e;
  get-commit = λ b db j e. apply_some j e;
}

-- The text of a record is its identifier.
abbrev record_with : Bytes → ComplexRecord
record_with id = record {
  id = id;
  name = [];
  description = [];
  data_text = [];
  meta = record { created_at = 0; updated_at = 0; tags = [] };
}

abbrev json : RecordJson
json = record { marshal = λ r. some r.id; unmarshal = λ b. some (record_with b) }

all-Encodes : (r : ComplexRecord) → Encodes json r
all-Encodes r = record {
  line = r.id;
  json_of = refl;
  back = record_with r.id;
  reads_back = refl;
  same_id = refl;
}

abbrev in_order : Shuffle
in_order = record { shuffle = λ seed l. l; shuffle-All = λ P seed l all. all }

abbrev noon : Bytes → ℕ → ℕ
noon name i = 43_200

run_badger-Succeeds_example :
    Succeeds json kv kv-Obliging (run_badger json kv noon in_order batched) 2 1000 none
run_badger-Succeeds_example =
    run_badger-Succeeds json kv kv-Obliging noon in_order (λ name i r made. all-Encodes r) batched
      (λ key v b. (with_key key v b, refl)) (λ b. (b, refl)) 2 1000 none refl

zeros : ℕ → Bytes
zeros zero = []
zeros (suc n) = 0 ∷ zeros n

length-zeros : (n : ℕ) → length (zeros n) ≡ n
unfolding zeros
length-zeros zero = refl
length-zeros (suc n) = ap (λ k. suc k) (length-zeros n)

abbrev blank : Payloads
blank = record {
  random_bytes = λ seed size. zeros size;
  length-random_bytes = λ seed size. length-zeros size;
  scaled = λ h. 0;
  scaled-bound = λ h small. omega arith;
}

repeat-run_badger_files_example :
    StoresFiles blank kv
      (λ dir. (opened dir, refl))
      (λ db. refl)
      (run_badger_files blank kv batched (precompute_payloads blank 0 num_files))
      2
      none
repeat-run_badger_files_example =
    repeat-run_badger_files blank kv (λ dir. (opened dir, refl)) (λ db. refl) batched
      (λ key v b. (with_key key v b, refl)) (λ b. (b, refl)) 2 none refl

-- A database with spaces is a function from spaces and keys to values.
abbrev Cells : Type 0
Cells = Bytes → Bytes → Option Bytes

abbrev no_cells : Cells
no_cells b key = none

abbrev with_cell : Bytes → Bytes → Bytes → Cells → Cells
with_cell name key v db b j = if equal b name && equal j key then some v else db b j

abbrev is_empty : Option Cells → Bool
is_empty none = true
is_empty (some db) = false

abbrev entered : Option Cells → Cells
entered none = no_cells
entered (some db) = db

entered-empty : (dir : Option Cells) (b j : Bytes) → is_empty dir ≡ true → entered dir b j ≡ none
entered-empty none b j fresh = refl
entered-empty (some db) b j fresh = cc

cell_some : {a c : Cells} (b j : Bytes) → some a ≡ some c → c b j ≡ a b j
cell_some b j e = ap (λ (o : Option Cells). entered o b j) (sym e)

abbrev spaces : Spaces
spaces = record {
  Dir = Option Cells;
  Db = Cells;
  missing = is_empty;
  open_db = λ dir. some (entered dir);
  close = λ db. (true, some db);
  Txn = Cells;
  begin = λ db. db;
  enter = λ name t. some t;
  put = λ name key v t. some (with_cell name key v t);
  commit = λ t. some t;
  shows = λ b j t. t b j;
  has_space = λ b db. true;
  get = λ b j db. db b j;
  get-open_db_missing = λ dir db b j fresh e. cell_some b j e ∙ entered-empty dir b j fresh;
  get-open_db_closed = λ db db' b j good e. cell_some b j e;
  missing-close = λ db good. refl;
  shows-begin = λ db b j. refl;
  shows-enter = λ name t t' b j e. cell_some b j e;
  shows-put = λ name key v t t' b j e. cell_some b j e;
  get-commit = λ t db b j e. cell_some b j e;
  has_space-get = λ b j db there. refl;
}

spaces-Willing : Willing json spaces
spaces-Willing = record {
  obliging = record { opens = λ dir. (entered dir, refl); closes = λ db. refl };
  enters = λ name t. (t, refl);
  puts = λ name key v t. (with_cell name key v t, refl);
  commits = λ t. (t, refl);
}

repeat-run_bolt_db_example :
    Fills json spaces spaces-Willing (run_bolt_db json spaces noon in_order) 2 1000 none
repeat-run_bolt_db_example =
    repeat-run_bolt_db json spaces spaces-Willing noon in_order (λ name i r made. all-Encodes r) 2
      1000 none refl
