-- ===== src/Lifecycle/Counts.antt =====
-- What `Stats` counts, before and after a `Shrink`.
use go_persist.Base.{
  ℕ, suc, ◌+◌, ◌%◌, ◌≡◌, refl, sym, ap, ◌∙◌, List, [], ◌∷◌, ◌++◌, Bytes, length, length-append,
  arith, Option-cases, inl, inr, true, false, Option,
}
use go_persist.Env.XsyncMap.{XsyncMap}
use go_persist.Env.Json.{Json}
use go_persist.Lifecycle.{count_entries, count_maps, stats}
use go_persist.PersistMap.{map_size}
use go_persist.Shrink.{shrink}
use go_persist.Shrink.Alone.{idle, compacted, shrink-Swapped}
use go_persist.Shrink.Compacting.{add32_mod}
use go_persist.Shrink.Steps.{entries_of, entries_of-some, orphan_text, HaveText}
use go_persist.Shrink.MapPass.{map_entries, MapsHaveText}
use go_persist.State.{PersistMap, Store}
use go_persist.Wal.{add32, int32_mod}

module _ ⦃maps : XsyncMap⦄ ⦃json : Json⦄ where
  open maps use {range, size-eq-length}
  open json use {Value, marshal}

  length-entries_of :
      (text : Value → Option Bytes) (p : Bytes) (l : List (Bytes × Value))
      → HaveText text l
      → length (entries_of text p l) ≡ length l
  unfolding entries_of
  length-entries_of text p [] texts = refl
  length-entries_of text p ((k, v) ∷ l) (has, texts) = elim (Option-cases (text v)) [
    | inl e ↦ absurd (has e)
    | inr (line, e) ↦
        rw (entries_of-some text p k v l e) (ap suc (length-entries_of text p l texts))
  ]

  count_entries-length :
      {V : Type 0} (l : List (Bytes × V)) (k : ℕ)
      → count_entries l (k % int32_mod) ≡ (k + length l) % int32_mod
  unfolding count_entries
  count_entries-length [] k = let e : k + 0 ≡ k = omega arith in rw e
  count_entries-length (x ∷ l) k =
      let e : k + 1 + length l ≡ k + suc (length l) = omega arith in
      ap (count_entries l) (add32_mod k 1) ∙ count_entries-length l (k + 1) ∙ rw e

  count_maps-length :
      (l : List (Bytes × PersistMap)) (k : ℕ)
      → MapsHaveText l
      → count_maps l (k % int32_mod) ≡ (k + length (map_entries l)) % int32_mod
  unfolding count_maps map_entries map_size
  count_maps-length [] k texts = let e : k + 0 ≡ k = omega arith in rw e
  count_maps-length ((name, pm) ∷ l) k (text, texts) =
      let here : maps.size pm.data_map ≡ length (entries_of marshal pm.prefix (range pm.data_map)) =
        size-eq-length pm.data_map
        ∙ sym (length-entries_of marshal pm.prefix (range pm.data_map) text) in
      let n = length (entries_of marshal pm.prefix (range pm.data_map)) in
      let e : k + n + length (map_entries l)
          ≡ k + length (entries_of marshal pm.prefix (range pm.data_map) ++ map_entries l) =
        omega (
          arith,
          length-append {0} (entries_of marshal pm.prefix (range pm.data_map)) (map_entries l),
        ) in
      ap (count_maps l) (ap (add32 (k % int32_mod)) here ∙ add32_mod k n)
      ∙ count_maps-length l (k + n) texts
      ∙ ap (λ (m : ℕ). m % int32_mod) e

  -- The keys that `Stats` counts are the entries of a compacted log.
  pub stats-compacted :
      (s : Store)
      → HaveText orphan_text (range s.orphan_records)
      → MapsHaveText (range s.persist_maps)
      → stats s ≡ (length (compacted s) % int32_mod, s.total_wal_records)
  unfolding stats
  stats-compacted s texts map_texts =
      let orphans : ℕ = 0 + length (range s.orphan_records) in
      let e : orphans + length (map_entries (range s.persist_maps)) ≡ length (compacted s) = omega (
        arith,
        length-entries_of orphan_text [] (range s.orphan_records) texts,
        length-append {0} (entries_of orphan_text [] (range s.orphan_records))
            (map_entries (range s.persist_maps)),
      ) in
      ap (λ (n : ℕ). let p : ℕ × ℕ = (n, s.total_wal_records) in p)
        (ap (count_maps (range s.persist_maps)) (count_entries-length (range s.orphan_records) 0)
          ∙ count_maps-length (range s.persist_maps) orphans map_texts
          ∙ ap (λ (m : ℕ). m % int32_mod) e)

  -- After a `Shrink` of an open store that no other goroutine uses, if every value has a JSON text and
  -- no call of the operating system fails, `Stats` counts as many records in the log as keys in
  -- memory; and as many keys as before.
  pub stats-shrink :
      (s : Store)
      → s.loaded ≡ true
      → s.shrinking ≡ false
      → s.os.faults ≡ []
      → HaveText orphan_text (range s.orphan_records)
      → MapsHaveText (range s.persist_maps)
      → stats (shrink idle s).1 ≡ ((stats s).0, (stats s).0)
  unfolding stats
  stats-shrink s loaded at_rest quiet texts map_texts =
      let (_, swapped) = shrink-Swapped s loaded at_rest quiet texts map_texts in
      let keys : (stats s).0 ≡ length (compacted s) % int32_mod =
        ap (λ (p : ℕ × ℕ). p.0) (stats-compacted s texts map_texts) in
      ap stats swapped.kept ∙ ap (λ (n : ℕ). let p : ℕ × ℕ = ((stats s).0, n) in p) (sym keys)
