-- ===== src/Tests/Fixtures.antt =====
-- Stores, maps and log entries for the tests.
use mathlib.Core.Path.{subst₂}
use go_persist.Base.{
  none, some, true, false, List, [], ◌∷◌, ◌++◌, Bytes, codes, ◌≡◌, refl, equal, if◌then◌else◌, All,
  arith, Bool-cases, inl, inr, equal_iff,
}
use go_persist.Env.XsyncMap.{lookup}
use go_persist.Env.XsyncMap.Assoc.{assoc_map}
use go_persist.Env.Os.{Os, at, closed}
use go_persist.Key.{validate_key}
use go_persist.PersistMap.Durable.{Durable, Loggable}
use go_persist.Record.Entry.{Entry, IsReadable, log_bytes}
use go_persist.Record.{buffer_size}
use go_persist.State.{Store, PersistMap}
use go_persist.Tests.Codec.{codec, int, Value, number, text}
use go_persist.Wal.Effects.{HasLog, replay}
use go_persist.Wal.{wal_header}

abbrev pub path : Bytes
path = codes "db"

abbrev pub disk_of : List Entry → Os
disk_of es = record {
  files = λ n.
      if equal path n
      then some (record { content = wal_header ++ log_bytes es; synced = 13 })
      else none;
  faults = [];
}

-- A store that is open on a file with these entries.
abbrev pub running : List Entry → Store
running es = record {
  os = disk_of es;
  f = at path;
  path = path;
  sync_running = true;
  persist_maps = [];
  closed_maps = [];
  orphan_records = [];
  sync_interval = 1000;
  shrinking = false;
  pending_records = [];
  auto_shrink = false;
  total_wal_records = 0;
  loaded = true;
  handled = [];
}

-- The map "u" of digits.
abbrev pub users : PersistMap
users = record { value_type = int; data_map = []; prefix = codes "u:"; dirty = [] }

-- A second store, not open yet, with the map "u" registered.
abbrev pub waiting : List Entry → Store
waiting es = record (running es) {
  f = closed;
  sync_running = false;
  persist_maps = (codes "u", users) ∷ [];
  loaded = false;
}

abbrev pub a_is_3 : Entry
a_is_3 = Entry.set (codes "u:a") (codes "3")

pub a_is_3-IsReadable : IsReadable buffer_size a_is_3
a_is_3-IsReadable = record {
  key_ne_nil = λ e. cc;
  key_no_lf = omega arith;
  value_no_lf = omega arith;
  key_fits = omega arith;
  value_fits = omega arith;
}

pub digit_Loggable : Loggable int (codes "u:") (codes "a") (number 3)
unfolding validate_key
digit_Loggable = record {
  line = codes "3";
  json_of = refl;
  reads_back = refl;
  valid = refl;
  fits = a_is_3-IsReadable;
}

pub running-HasLog : (es : List Entry) → All (IsReadable buffer_size) es → HasLog (running es) es
unfolding equal
running-HasLog es readable = record {
  is_loaded = refl;
  handle = refl;
  no_faults = refl;
  synced = 13;
  stands = refl;
  readable = readable;
}

-- The empty map beside the empty log.
unfoldable pub users-Durable : Durable users (running [])
unfolding lookup replay
users-Durable = record {
  entries = [];
  log = running-HasLog [] tt;
  in_log = λ key clean. refl;
  values = λ key v there. cc;
  dirty_fits = λ key dirty. absurd (dirty refl);
}

abbrev pub b_deleted : Entry
b_deleted = Entry.delete (codes "u:b")

pub b_deleted-IsReadable : IsReadable buffer_size b_deleted
b_deleted-IsReadable = record {
  key_ne_nil = λ e. cc;
  key_no_lf = omega arith;
  value_no_lf = tt;
  key_fits = omega arith;
  value_fits = omega arith;
}

-- The map that holds 3 under "a", beside the log that says so.
abbrev pub users_with_a : PersistMap
users_with_a = record users { data_map = (codes "a", number 3) ∷ [] }

pub a_Loggable :
    (key : Bytes) (v : Value)
    → lookup key ((codes "a", number 3) ∷ []) ≡ some v
    → Loggable int (codes "u:") key v
unfolding lookup
a_Loggable key v there = elim (Bool-cases (equal (codes "a") key)) [
  | inl same ↦
      let is_3 = rw same at there in
      subst₂ (λ k w. Loggable int (codes "u:") k w) ((equal_iff (codes "a") key).0 same) (cc is_3)
        digit_Loggable
  | inr other ↦ cc (rw other at there)
]

unfoldable pub users_with_a-Durable : Durable users_with_a (running (a_is_3 ∷ []))
unfolding lookup replay equal
users_with_a-Durable = record {
  entries = a_is_3 ∷ [];
  log = running-HasLog (a_is_3 ∷ []) (a_is_3-IsReadable, tt);
  in_log = λ key clean. elim (Bool-cases (equal (codes "a") key)) [
    | inl same ↦ rw same
    | inr other ↦ rw other
  ];
  values = λ key v there. a_Loggable key v there;
  dirty_fits = λ key dirty. absurd (dirty refl);
}

-- A store with that log, one orphan and that map.
abbrev pub full_store : Store
full_store = record (running (a_is_3 ∷ [])) {
  orphan_records = (codes "k", text (codes "v")) ∷ [];
  persist_maps = (codes "u", users_with_a) ∷ [];
}

pub full_store-Durable : Durable users_with_a full_store
full_store-Durable = record {
  entries = users_with_a-Durable.entries;
  log = record {
    is_loaded = users_with_a-Durable.log.is_loaded;
    handle = users_with_a-Durable.log.handle;
    no_faults = users_with_a-Durable.log.no_faults;
    synced = users_with_a-Durable.log.synced;
    stands = users_with_a-Durable.log.stands;
    readable = users_with_a-Durable.log.readable;
  };
  in_log = users_with_a-Durable.in_log;
  values = users_with_a-Durable.values;
  dirty_fits = users_with_a-Durable.dirty_fits;
}
