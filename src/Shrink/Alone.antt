-- ===== src/Shrink/Alone.antt =====
-- A `Shrink` during which no other goroutine runs.
use go_persist.Base.{
  ℕ, zero, suc, ◌+◌, ◌≡◌, refl, sym, ap, ◌∙◌, true, false, List, [], ◌++◌, Bytes, append_assoc,
  length, length-append, arith,
}
use go_persist.Env.XsyncMap.{XsyncMap}
use go_persist.Env.Json.{Json}
use go_persist.Env.Os
use go_persist.Env.Os.{Os, File, at}
use go_persist.Record.Entry.{Entry, log_bytes}
use go_persist.Result.{ok}
use go_persist.Shrink.{
  Window, Shrinking, ◌>>◌, tmp_path, call, stopped, keep_store, with_tmp, write_orphans, write_maps,
  snapshot_orphans, snapshot_maps, create_tmp, prepare, snapshot, drain, drain_round, finish,
  compact, shrink, shrink_result,
}
use go_persist.Shrink.Compacting.{
  append-log_nil, Compacting, files-put_tmp, Reaches, then_ok, call_ok, with_os, call-write,
  appended, appended-Compacting, Compacting-at, log_bytes-append,
}
use go_persist.Shrink.Steps.{entries_of, orphan_text, HaveText, write_orphans-Reaches}
use go_persist.Shrink.MapPass.{map_entries, MapsHaveText, write_maps-Reaches}
use go_persist.State.{Store}
use go_persist.Wal.{wal_header}
use go_persist.Shrink.Swap.{Swapped-at, sync-Reaches, Swapped, finish-Swapped}

create_no_faults :
    (name : Bytes) (os : Os)
    → os.faults ≡ []
    → Os.create name os ≡ (true, Os.put name Os.new_file os)
unfolding Os.create
create_no_faults name os quiet = rw quiet

module _ ⦃maps : XsyncMap⦄ ⦃json : Json⦄ where
  open maps use {range}

  -- No other goroutine does anything.
  abbrev pub idle : Window → Store → Store
  idle w s = s

  pub prepare-Reaches :
      (t : Shrinking)
      → t.base.os.faults ≡ []
      → t.counter ≡ 0
      → Reaches t.base wal_header 0 (prepare idle) t
  unfolding prepare
  prepare-Reaches t quiet fresh =
      let os : Os = Os.put (tmp_path t.base) Os.new_file t.base.os in
      let h : Compacting t.base [] 0 (with_os os t) = record {
        synced = 0;
        there = Os.files-put_self (tmp_path t.base) Os.new_file t.base.os;
        quiet = quiet;
        kept = refl;
        counted = fresh;
        log_kept = files-put_tmp t.base t _ t.base.os refl;
      } in
      (
        appended h wal_header,
        then_ok create_tmp (with_tmp λ w. call (Os.write w wal_header) stopped) t (
              call_ok (Os.create (tmp_path t.base)) keep_store t
                (create_no_faults (tmp_path t.base) t.base.os quiet))
            ∙ call-write h stopped wal_header,
        appended-Compacting h wal_header,
      )

  snapshot-Reaches :
      {s : Store} {c : Bytes} {n : ℕ} {t : Shrinking}
      → HaveText orphan_text (range s.orphan_records)
      → MapsHaveText (range s.persist_maps)
      → Compacting s c n t
      → Reaches s
          ((c ++ log_bytes (entries_of orphan_text [] (range s.orphan_records)))
            ++ log_bytes (map_entries (range s.persist_maps)))
          ((n + length (entries_of orphan_text [] (range s.orphan_records)))
            + length (map_entries (range s.persist_maps)))
          (snapshot idle)
          t
  unfolding snapshot
  snapshot-Reaches {s} {t = t} texts map_texts h =
      let (t₁, e₁, h₁) = write_orphans-Reaches (range s.orphan_records) texts h in
      let (t₂, e₂, h₂) = write_maps-Reaches (range s.persist_maps) map_texts h₁ in
      let (t₃, e₃, h₃, _) = sync-Reaches stopped h₂ in
      (
        t₃,
        then_ok snapshot_orphans (snapshot_maps >> with_tmp λ w. call (Os.sync w) stopped) t
              (ap (λ (x : Store). write_orphans (range x.orphan_records) t) h.kept ∙ e₁)
            ∙ then_ok snapshot_maps (with_tmp λ w. call (Os.sync w) stopped) t₁
                (ap (λ (x : Store). write_maps (range x.persist_maps) t₁) h₁.kept ∙ e₂)
            ∙ e₃,
        h₃,
      )

  drain_lem :
      {s : Store} {c : Bytes} {n : ℕ} {t : Shrinking} (rounds : ℕ)
      → s.pending_records ≡ []
      → Compacting s c n t
      → drain idle rounds t ≡ (ok tt, t)
  unfolding drain drain_round
  drain_lem zero none_pending h = refl
  drain_lem {t = t} (suc rounds) none_pending h =
      ap (λ (l : List Bytes). drain_round (λ x. x) (drain idle rounds) l t)
        (ap (λ (x : Store). x.pending_records) h.kept ∙ none_pending)

  pub shrink_runs :
      (others : Window → Store → Store) (s : Store)
      → s.loaded ≡ true
      → s.shrinking ≡ false
      → shrink others s
        ≡ shrink_result others (
            compact others
              (record { base = record s { shrinking = true; pending_records = [] }; counter = 0 }))
  unfolding shrink
  shrink_runs others s loaded at_rest = simp (loaded, at_rest)

  -- The entries of the compacted log: those of the orphans, then those of the maps.
  abbrev pub compacted : Store → List Entry
  compacted s =
      entries_of orphan_text [] (range s.orphan_records) ++ map_entries (range s.persist_maps)

  -- A `Shrink` of an open store that no other goroutine uses, if every value has a JSON text and no
  -- call of the operating system fails: it returns nil; the file holds the header and one set record
  -- for each orphan and for each key of each map, and is on the disk; they are counted, modulo
  -- 2 ^ 32; the store appends to the new file, and nothing else of it has changed.
  pub shrink-Swapped :
      (s : Store)
      → s.loaded ≡ true
      → s.shrinking ≡ false
      → s.os.faults ≡ []
      → HaveText orphan_text (range s.orphan_records)
      → MapsHaveText (range s.persist_maps)
      → ((shrink idle s).0 ≡ ok tt)
        × Swapped
            (record s { shrinking = false; pending_records = [] })
            (wal_header ++ log_bytes (compacted s))
            (length (compacted s))
            (shrink idle s).1
  unfolding compact
  shrink-Swapped s loaded at_rest quiet texts map_texts =
      let start : Shrinking = record {
        base = record s { shrinking = true; pending_records = [] };
        counter = 0;
      } in
      let orphans : List Entry = entries_of orphan_text [] (range s.orphan_records) in
      let kept : List Entry = map_entries (range s.persist_maps) in
      let (t₁, e₁, h₁) = prepare-Reaches start quiet refl in
      let (t₂, e₂, h₂) = snapshot-Reaches texts map_texts h₁ in
      let h₃ =
        Compacting-at {c' = wal_header ++ log_bytes (compacted s)} {n' = length (compacted s)}
          (append_assoc wal_header (log_bytes orphans) (log_bytes kept)
            ∙ ap (λ (b : Bytes). wal_header ++ b) (sym (log_bytes-append orphans kept)))
          (omega (arith, length-append {0} orphans kept)) h₂ in
      let (t₃, e₃, swapped) = finish-Swapped [] refl h₃ in
      let run : compact idle start ≡ (ok tt, t₃) =
        then_ok (prepare idle) (snapshot idle >> (drain idle 3 >> finish)) start e₁
        ∙ then_ok (snapshot idle) (drain idle 3 >> finish) t₁ e₂
        ∙ then_ok (drain idle 3) finish t₂ (drain_lem 3 refl h₂)
        ∙ e₃ in
      rw (shrink_runs idle s loaded at_rest) (
        rw run (
          refl,
          Swapped-at (sym (append-log_nil (wal_header ++ log_bytes (compacted s)))) (omega arith)
              swapped,
        ))
