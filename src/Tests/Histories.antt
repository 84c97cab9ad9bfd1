-- ===== src/Tests/Histories.antt =====
-- Histories of calls, crashes, restored files and compacted logs, at concrete inputs.
use go_persist.Base.{
  ◌≡◌, refl, if◌then◌else◌, ◌-◌, inl, inr, some, none, List, [], ◌∷◌, ◌++◌, Bytes, codes, arith,
  equal, equal_iff, map, take, All, Bool-cases,
}
use go_persist.Env.XsyncMap.{lookup}
use go_persist.Env.XsyncMap.Assoc.{assoc_map}
use go_persist.Loading.{index, route, open_store}
use go_persist.Loading.Crash.{Crashed, left_of, open_store-Crashed}
use go_persist.Loading.Restore.{Restored}
use go_persist.PersistMap.{get}
use go_persist.PersistMap.History.{
  Call, run, notes, set, set_async, delete, update, sync, Admissible, View,
}
use go_persist.PersistMap.History.Follows.{Follows, run-Follows}
use go_persist.PersistMap.History.Reopen.{answer}
use go_persist.PersistMap.History.Sessions.{sessions, all_notes, get-sessions}
use go_persist.Key.{validate_key}
use go_persist.Env.Os.{Os}
use go_persist.PersistMap.Update.{Update, action_delete}
use go_persist.Record.Cut.{fitting, read_file-take}
use go_persist.Record.Entry.{Entry, IsReadable, line_bytes, log_bytes, entry_record}
use go_persist.Record.Log.{read_file, at_eof}
use go_persist.Record.{buffer_size}
use go_persist.Loading.Routing.{NoColon}
use mathlib.Core.Path.{subst₂}
use go_persist.Shrink.Steps.{entries_of}
use go_persist.Shrink.MapPass.{map_entries}
use go_persist.Result.{ok}
use go_persist.Shrink.{shrink}
use go_persist.Shrink.Alone.{idle}
use go_persist.Shrink.Durable.{WellNamed, Shrinkable, Caught, shrink-Caught}
use go_persist.State.{PersistMap, Store}
use go_persist.Tests.Codec.{codec, int, Value, number}
use go_persist.Tests.Fixtures.{
  path, full_store, full_store-Durable, running, waiting, users, users_with_a, users-Durable,
  digit_Loggable, a_is_3, a_is_3-IsReadable, b_deleted, b_deleted-IsReadable,
}

abbrev to_gone : Update → Update
to_gone u = record u { action = action_delete }

abbrev calls : List Call
calls =
    set (codes "a") (number 3)
    ∷ delete (codes "b")
    ∷ set_async (codes "a") (number 3)
    ∷ update (codes "b") to_gone
    ∷ sync
    ∷ []

calls-Admissible : All (Admissible int (codes "u:")) calls
calls-Admissible = (
  digit_Loggable,
  (b_deleted-IsReadable, (digit_Loggable, ((λ u. b_deleted-IsReadable), (tt, tt)))),
)

abbrev nothing : View
nothing key = none

users_is_empty : (j : Bytes) → lookup {V = Value} j [] ≡ none
unfolding lookup
users_is_empty j = refl

run-Follows_example :
    Follows users-Durable.entries users
      (running [])
      (notes int calls nothing)
      (run calls (users, running []))
run-Follows_example = run-Follows calls users-Durable nothing users_is_empty calls-Admissible

read_file-take_example :
    read_file (take 10 (log_bytes (a_is_3 ∷ b_deleted ∷ [])))
    ≡ record { records = map entry_record (fitting 10 (a_is_3 ∷ b_deleted ∷ [])); stop = at_eof }
read_file-take_example =
    read_file-take 10 (a_is_3 ∷ b_deleted ∷ []) (a_is_3-IsReadable, (b_deleted-IsReadable, tt))

-- The disk has the first 23 bytes: the first record, and two bytes of the second.
abbrev after_crash : Store
after_crash = record (waiting []) {
  os = record {
    files = λ n.
        if equal path n
        then some (record { content = left_of 23 (a_is_3 ∷ b_deleted ∷ []); synced = 23 })
        else none;
    faults = [];
  };
}

after_crash-Crashed : Crashed path 23 (a_is_3 ∷ []) (b_deleted ∷ []) (codes "u") int after_crash
unfolding lookup equal index route
after_crash-Crashed = record {
  on_disk = unfold log_bytes line_bytes in omega arith;
  not_loaded = refl;
  synced = 23;
  there = refl;
  quiet = refl;
  readable = (a_is_3-IsReadable, (b_deleted-IsReadable, tt));
  plain = omega arith;
  tracks = record {
    pm = users;
    registered = refl;
    typed = refl;
    prefixed = refl;
    clean = λ key. refl;
    holds = λ key. refl;
  };
  separates = (inl (λ e. cc), (inl (λ e. cc), tt));
  decodes = ((number 3, refl), (tt, tt));
}

open_store-Crashed_example :
    ((open_store 0 path after_crash).0 ≡ ok tt)
    × ((kept lost : List Entry) × (b_deleted ∷ [] ≡ kept ++ lost)
        × Restored path
            (take (23 - 13) (log_bytes (a_is_3 ∷ b_deleted ∷ [])))
            (a_is_3 ∷ kept)
            (codes "u")
            int
            after_crash
            (open_store 0 path after_crash).1)
open_store-Crashed_example =
    open_store-Crashed path 23 (a_is_3 ∷ []) (b_deleted ∷ []) after_crash after_crash-Crashed 0

-- No file is there, and no call will fail.
abbrev no_file : Os
no_file = record { files = λ n. none; faults = [] }

get-sessions_example :
    (p : PersistMap × Store) × (sessions int (codes "u") path 0 calls (calls ∷ []) no_file ≡ some p)
    × ((key : Bytes) → get key p.0 ≡ answer int (all_notes int calls (calls ∷ []) nothing key))
unfolding validate_key
get-sessions_example =
    get-sessions int (codes "u") path 0 refl (omega arith) calls (calls ∷ []) no_file refl refl
      calls-Admissible (calls-Admissible, tt)

pub k_is_v-IsReadable : IsReadable buffer_size (Entry.set (codes "k") (codes "v"))
k_is_v-IsReadable = record {
  key_ne_nil = λ e. cc;
  key_no_lf = omega arith;
  value_no_lf = omega arith;
  key_fits = omega arith;
  value_fits = omega arith;
}

pub only_user :
    (n : Bytes) (other : PersistMap)
    → lookup n ((codes "u", users_with_a) ∷ []) ≡ some other
    → WellNamed (n, other)
unfolding lookup
only_user n other there = elim (Bool-cases (equal (codes "u") n)) [
  | inl same ↦
      let is_users : users_with_a ≡ other = cc (rw same at there) in
      let plain : NoColon (codes "u") = omega arith in
      subst₂ (λ m pm. WellNamed (m, pm)) ((equal_iff (codes "u") n).0 same) is_users (refl, plain)
  | inr differs ↦ cc (rw differs at there)
]

full_store-Shrinkable : Shrinkable (codes "u") users_with_a full_store
unfolding lookup equal entries_of map_entries
full_store-Shrinkable = record {
  durable = full_store-Durable;
  registered = refl;
  at_rest = refl;
  named = only_user;
  no_orphan = λ key. refl;
  texts = ((λ e. cc), tt);
  map_texts = (((λ e. cc), tt), tt);
  readable = (k_is_v-IsReadable, (a_is_3-IsReadable, tt));
}

shrink-Caught_example :
    ((shrink idle full_store).0 ≡ ok tt) × Caught full_store-Shrinkable (shrink idle full_store).1
shrink-Caught_example = shrink-Caught full_store-Shrinkable
