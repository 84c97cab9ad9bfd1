-- ===== src/Tests/Usage.antt =====
-- A map in use while `Shrink` runs, at a concrete input.
use mathlib.Core.Path.{subst₂}
use go_persist.Base.{
  ◌≡◌, refl, ap, ◌∙◌, List, [], ◌∷◌, ◌++◌, All, codes, equal, equal_iff, Bool-cases, inl, inr,
}
use go_persist.Env.XsyncMap.{lookup}
use go_persist.Env.XsyncMap.Assoc.{assoc_map}
use go_persist.PersistMap.History.{Call, set, delete, set_async, sync, Admissible}
use go_persist.Record.{buffer_size}
use go_persist.Record.Entry as Entry
use go_persist.Record.Entry.{IsReadable}
use go_persist.Result.{ok}
use go_persist.Shrink.{Window, before_maps, before_drain, before_pending, before_swap, shrink}
use go_persist.Shrink.Fits.{AllFit, MapsFit}
use go_persist.Shrink.Steps.{orphan_text}
use go_persist.Shrink.Used.{using}
use go_persist.Shrink.Used.Kept.{Usable, Kept, shrink-Kept}
use go_persist.State.{PersistMap}
use go_persist.Tests.Codec.{codec, int, number, text}
use go_persist.Tests.Fixtures.{
  full_store, full_store-Durable, users_with_a, a_Loggable, digit_Loggable, b_deleted-IsReadable,
}
use go_persist.Tests.Histories.{only_user, k_is_v-IsReadable}
use go_persist.Tests.Shrinks.{full_store-Orphans, full_store-Registered}

-- A value is set before the pass over the maps and before the last lock, a key is deleted in each
-- round of the drain, and the map is synced there.
abbrev calls : Window → List Call
calls before_maps = set (codes "a") (number 3) ∷ set_async (codes "a") (number 3) ∷ []
calls (before_drain k) = delete (codes "b") ∷ []
calls (before_pending k) = sync ∷ []
calls before_swap = set (codes "a") (number 3) ∷ []
calls _ = []

calls-Admissible : (w : Window) → All (Admissible int (codes "u:")) (calls w)
calls-Admissible before_maps = (digit_Loggable, (digit_Loggable, tt))
calls-Admissible (before_drain k) = (b_deleted-IsReadable, tt)
calls-Admissible (before_pending k) = (tt, tt)
calls-Admissible before_swap = (digit_Loggable, tt)
calls-Admissible _ = tt

orphans_fit : AllFit orphan_text [] full_store.orphan_records
unfolding lookup
orphans_fit k v there line has = elim (Bool-cases (equal (codes "k") k)) [
  | inl same ↦
      let is_text : text (codes "v") ≡ v = cc (rw same at there) in
      let its_line : codes "v" ≡ line = cc (ap orphan_text is_text ∙ has) in
      subst₂ (λ j l. IsReadable buffer_size (Entry.set j l)) ((equal_iff (codes "k") k).0 same)
        its_line k_is_v-IsReadable
  | inr differs ↦ cc (rw differs at there)
]

maps_fit : MapsFit full_store.persist_maps
unfolding lookup
maps_fit n pm named k v there line has = elim (Bool-cases (equal (codes "u") n)) [
  | inl same ↦
      let is_users : users_with_a ≡ pm = cc (rw same at named) in
      let l = a_Loggable k v (ap (λ (x : PersistMap). lookup k x.data_map) is_users ∙ there) in
      let its_line : l.line ≡ line = cc (l.json_of, has) in
      subst₂ (λ p b. IsReadable buffer_size (Entry.set (p ++ k) b))
        (ap (λ (x : PersistMap). x.prefix) is_users) its_line l.fits
  | inr differs ↦ cc (rw differs at named)
]

full_store-Usable : Usable (codes "u") users_with_a full_store
unfolding lookup equal
full_store-Usable = record {
  durable = full_store-Durable;
  registered = refl;
  at_rest = refl;
  tidy = record {
    named = only_user;
    no_orphan = λ key. refl;
    orphans_fit = orphans_fit;
    maps_fit = maps_fit;
  };
  texts = full_store-Orphans;
  map_texts = full_store-Registered;
}

shrink-Kept_example :
    ((shrink (using (codes "u") calls) full_store).0 ≡ ok tt)
    × Kept (codes "u") users_with_a calls (shrink (using (codes "u") calls) full_store).1
shrink-Kept_example = shrink-Kept calls full_store-Usable calls-Admissible
