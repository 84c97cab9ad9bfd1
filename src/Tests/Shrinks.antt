-- ===== src/Tests/Shrinks.antt =====
-- A compaction beside other goroutines, at a concrete input.
use go_persist.Base.{◌≡◌, refl, ap, ◌∙◌, List, [], ◌∷◌, codes, equal, Bool-cases, inl, inr}
use go_persist.Env.XsyncMap.{lookup}
use go_persist.Env.XsyncMap.Assoc.{assoc_map}
use go_persist.Record.Entry.{Entry}
use go_persist.Result.{ok}
use go_persist.Shrink.{Window, before_maps, before_pending, shrink}
use go_persist.Shrink.Interleaved.{Rewritten, begun, shrink-Rewritten}
use go_persist.Shrink.Steps.{orphan_text}
use go_persist.Shrink.Windows.{Busy}
use go_persist.Shrink.Work.{
  Orphans, Registered, Shared, nothing, writes, deletes, write_succeeds, delete_succeeds,
}
use go_persist.State.{PersistMap, Store}
use go_persist.Tests.Codec.{codec, number, text}
use go_persist.Tests.Fixtures.{
  full_store, users_with_a, a_is_3, b_deleted, digit_Loggable, a_Loggable,
}
use go_persist.Wal.{write, delete_key}

-- A value is set before the pass over the maps, and a key is deleted in each round of the drain.
abbrev es : Window → List Entry
es before_maps = a_is_3 ∷ []
es (before_pending k) = b_deleted ∷ []
es _ = []

abbrev others : Window → Store → Store
others before_maps s = (write (codes "u:a") (number 3) s).1
others (before_pending k) s = (delete_key (codes "u:b") s).1
others _ s = s

others-Busy : Busy es others
others-Busy before_maps s h =
    writes (codes "u:a") (number 3) refl
      (write_succeeds h (codes "u:a") (number 3) digit_Loggable.valid refl) nothing
others-Busy (before_pending k) s h = deletes (codes "u:b") (delete_succeeds h (codes "u:b")) nothing
others-Busy _ s h = nothing

pub full_store-Orphans : Orphans full_store.orphan_records
unfolding lookup
full_store-Orphans key v there gone = elim (Bool-cases (equal (codes "k") key)) [
  | inl same ↦
      let is_text : text (codes "v") ≡ v = cc (rw same at there) in
      cc (ap orphan_text is_text ∙ gone)
  | inr differs ↦ cc (rw differs at there)
]

pub full_store-Registered : Registered full_store.persist_maps
unfolding lookup
full_store-Registered name pm named key v there gone = elim (Bool-cases (equal (codes "u") name)) [
  | inl same ↦
      let is_users : users_with_a ≡ pm = cc (rw same at named) in
      let l = a_Loggable key v (ap (λ (x : PersistMap). lookup key x.data_map) is_users ∙ there) in
      cc (l.json_of, gone)
  | inr differs ↦ cc (rw differs at named)
]

shared_full : Shared (begun full_store)
unfolding lookup equal
shared_full = record {
  is_loaded = refl;
  is_shrinking = refl;
  open_at = refl;
  log = _;
  there = refl;
  quiet = refl;
  orphans = full_store-Orphans;
  registered = full_store-Registered;
}

shrink-Rewritten_example :
    ((shrink others full_store).0 ≡ ok tt)
    × Rewritten others-Busy full_store (shrink others full_store).1
shrink-Rewritten_example = shrink-Rewritten others-Busy full_store refl shared_full
