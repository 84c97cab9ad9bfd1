-- ===== src/Shrink/MapPass.antt =====
-- The pass of `Shrink` over the maps, when no call of the operating system fails.
use mathlib.Core.Path.{subst}
use go_persist.Base.{
  ℕ, suc, ◌+◌, ◌%◌, ◌≡◌, refl, sym, ap, ◌∙◌, Option, none, some, List, [], ◌∷◌, ◌++◌, Bytes,
  append_assoc, append-nil, length, length-append, arith, All, Option-cases, equal, false, inl, inr,
}
use go_persist.Env.XsyncMap.{XsyncMap}
use go_persist.Env.Json.{Json}
use go_persist.Env.Os
use go_persist.Env.Os.{Os, File, Handle, at}
use go_persist.PersistMap.{write_entries, write_records}
use go_persist.Record.{set_record}
use go_persist.Record.Entry.{Entry, line_bytes, log_bytes}
use go_persist.Result.{Error}
use go_persist.Shrink.{Shrinking, settle_map, tmp_path, write_map, write_maps}
use go_persist.State.{PersistMap, Store}
use go_persist.Wal.{int32_mod}
use go_persist.Shrink.Compacting.{
  append-log_nil, log_bytes-append, add32_mods, add32_mod, tmp-ne-log, then_ok, Compacting,
  Compacting-at, Reaches,
}
use go_persist.Shrink.Steps.{entries_of, entries_of-some, HaveText}

module _ ⦃maps : XsyncMap⦄ ⦃json : Json⦄ where
  open maps use {range}
  open json use {Value, as_string, marshal}

  -- `writeRecords` of a map.
  record Wrote (os : Os) (name : Bytes) (c : Bytes) (synced : ℕ) (os' : Os) : Type 0 where
    pub there : os'.files name ≡ some (record { content = c; synced = synced })
    pub quiet : os'.faults ≡ []
    pub other_files : (n : Bytes) → equal name n ≡ false → os'.files n ≡ os.files n

  write_entries-Wrote :
      {before : Os} (p name c : Bytes) (synced : ℕ) (l : List (Bytes × Value)) (os : Os)
      → HaveText marshal l
      → Wrote before name c synced os
      → (os' : Os) × (write_entries p (at name) l os
          ≡ (length (entries_of marshal p l) % int32_mod, none, os'))
        × Wrote before name (c ++ log_bytes (entries_of marshal p l)) synced os'
  unfolding write_entries entries_of log_bytes line_bytes
  write_entries-Wrote {before} p name c synced [] os texts w = (os, refl, rw (append-nil c) w)
  write_entries-Wrote {before} p name c synced ((k, v) ∷ l) os (has, texts) w =
      elim (Option-cases (marshal v)) [
        | inl e ↦ absurd (has e)
        | inr (line, e) ↦
            let os₁ =
              Os.put name (record { content = c ++ set_record (p ++ k) line; synced = synced })
                os in
            let w₁ : Wrote before name (c ++ set_record (p ++ k) line) synced os₁ = record {
              there = Os.files-put_self name _ os;
              quiet = w.quiet;
              other_files = λ n other. rw other (w.other_files n other);
            } in
            let (os₂, steps, w₂) =
              write_entries-Wrote p name (c ++ set_record (p ++ k) line) synced l os₁ texts w₁ in
            (
              os₂,
              rw (e, write_entries)
                  (rw (Os.write_no_faults name (set_record (p ++ k) line) os w.there w.quiet) (
                    rw (steps, entries_of-some marshal p k v l e)
                      (ap (λ (m : ℕ). let r : ℕ × Option Error × Os = (m, none, os₂) in r)
                        (add32_mod (length (entries_of marshal p l)) 1
                          ∙ ap (λ (m : ℕ). m % int32_mod)
                              (let one : length (entries_of marshal p l) + 1
                                    ≡ suc (length (entries_of marshal p l)) =
                                  omega arith in
                                one))))),
              subst (λ (b : Bytes). Wrote before name b synced os₂)
                  (append_assoc c (set_record (p ++ k) line) (log_bytes (entries_of marshal p l))
                    ∙ sym (
                        ap (λ (es : List Entry). c ++ log_bytes es)
                          (entries_of-some marshal p k v l e)))
                  w₂,
            )
      ]

  -- The entries of all registered maps, in the order of the pass.
  unfoldable pub map_entries : List (Bytes × PersistMap) → List Entry
  map_entries [] = []
  map_entries ((name, pm) ∷ l) = entries_of marshal pm.prefix (range pm.data_map) ++ map_entries l

  abbrev pub MapsHaveText : List (Bytes × PersistMap) → Type 0
  MapsHaveText = All (λ e. HaveText marshal (range e.1.data_map))

  write_map-Reaches :
      {s : Store} {c : Bytes} {n : ℕ} {t : Shrinking} (h : Compacting s c n t) (pm : PersistMap)
      → HaveText marshal (range pm.data_map)
      → Reaches s
          (c ++ log_bytes (entries_of marshal pm.prefix (range pm.data_map)))
          (n + length (entries_of marshal pm.prefix (range pm.data_map)))
          (write_map pm)
          t
  unfolding write_records
  write_map-Reaches {s} {c} {n} {t} h pm texts =
      let (os', steps, w) =
        write_entries-Wrote {before = t.base.os} pm.prefix (tmp_path t.base) c h.synced
          (range pm.data_map) t.base.os texts
          (record { there = h.there; quiet = h.quiet; other_files = λ n other. refl }) in
      (
        _,
        ap
            (λ (x : ℕ × Option Error × Os).
              settle_map x.1 x.0 (record t { base = record t.base { os = x.2 } }))
            steps,
        record {
          synced = h.synced;
          there = w.there;
          quiet = w.quiet;
          kept = ap (λ (x : Store). record x { os = os' }) h.kept;
          counted =
              rw h.counted
                (add32_mods n (length (entries_of marshal pm.prefix (range pm.data_map))));
          log_kept =
              w.other_files s.path (rw (ap (λ (x : Store). x.path) h.kept) (tmp-ne-log s.path))
              ∙ h.log_kept;
        },
      )

  pub write_maps-Reaches :
      {s : Store} {c : Bytes} {n : ℕ} {t : Shrinking} (l : List (Bytes × PersistMap))
      → MapsHaveText l
      → Compacting s c n t
      → Reaches s (c ++ log_bytes (map_entries l)) (n + length (map_entries l)) (write_maps l) t
  unfolding write_maps map_entries
  write_maps-Reaches {s} {c} {n} {t} [] texts h =
      (t, refl, Compacting-at (append-log_nil c) (omega arith) h)
  write_maps-Reaches {s} {c} {n} {t} ((name, pm) ∷ l) (text, texts) h =
      let es : List Entry = entries_of marshal pm.prefix (range pm.data_map) in
      let (t₁, step, h₁) = write_map-Reaches h pm text in
      let (t₂, steps, h₂) =
        write_maps-Reaches {c = c ++ log_bytes es} {n = n + length es} {t = t₁} l texts h₁ in
      (
        t₂,
        then_ok (write_map pm) (write_maps l) t step ∙ steps,
        Compacting-at
            (append_assoc c (log_bytes es) (log_bytes (map_entries l))
              ∙ ap (λ (b : Bytes). c ++ b) (sym (log_bytes-append es (map_entries l))))
            (omega (arith, length-append {0} es (map_entries l))) h₂,
      )
