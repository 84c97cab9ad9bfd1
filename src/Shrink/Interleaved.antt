-- ===== src/Shrink/Interleaved.antt =====
-- A `Shrink` while other goroutines write.
use go_persist.Base.{
  ℕ, ◌+◌, ◌≡◌, refl, sym, ap, ◌∙◌, true, false, List, [], ◌++◌, Bytes, append_assoc, length,
  length-append, arith,
}
use go_persist.Env.XsyncMap.{XsyncMap}
use go_persist.Env.Json.{Json}
use go_persist.Env.Os
use go_persist.Env.Os.{Os, File, at}
use go_persist.Record.Entry.{Entry, log_bytes}
use go_persist.Result.{ok}
use go_persist.Shrink.{
  Window, before_create, before_orphans, before_maps, before_sync, before_swap, Shrinking, Go, ◌>>◌,
  call, modify, stopped, with_tmp, snapshot_orphans, snapshot_maps, prepare, snapshot, drain,
  finish, compact, shrink, take_pending,
}
use go_persist.Shrink.Alone.{shrink_runs, prepare-Reaches}
use go_persist.Shrink.Compacting.{Compacting, then_ok, log_bytes-append}
use go_persist.Shrink.Drain.{drained, drain-Drains}
use go_persist.Shrink.Steps.{entries_of, orphan_text, write_orphans-Reaches}
use go_persist.Shrink.MapPass.{map_entries, write_maps-Reaches}
use go_persist.Shrink.Swap.{sync-Reaches, Swapped, Swapped-at, finish-Swapped}
use go_persist.Shrink.Windows.{
  Busy, Ready, Ready-at, Ready-Compacting, Shared-Ready, Compacting-Ready, Work-Ready,
  orphans-HaveText, maps-HaveText,
}
use go_persist.Shrink.Work.{Shared, Work, Work-Beside}
use go_persist.State.{Store}
use go_persist.Wal.{wal_header}

-- The records that the other goroutines have written in the windows, in their order: those before
-- the drains, those of the drains, and those before the last lock.
abbrev pub snapshot_records : (Window → List Entry) → List Entry
snapshot_records es = ((es before_create ++ es before_orphans) ++ es before_maps) ++ es before_sync

abbrev pub acknowledged : (Window → List Entry) → List Entry
acknowledged es = drained es 3 (snapshot_records es) ++ es before_swap

module _ ⦃maps : XsyncMap⦄ ⦃json : Json⦄ where
  open maps use {range}

  -- The store as `Shrink` leaves its first lock.
  abbrev pub begun : Store → Store
  begun s = record s { shrinking = true; pending_records = [] }

  -- The same contents in memory.
  abbrev pub SameMaps : Store → Store → Type 0
  SameMaps s s' = (s'.orphan_records ≡ s.orphan_records) × (s'.persist_maps ≡ s.persist_maps)

  -- Up to the header of the temporary file, with `work` before it is created.
  pub prepare-Ready :
      (others : Window → Store → Store) (s : Store) {fs : List Entry}
      → Shared (begun s)
      → Work (begun s) fs (others before_create (begun s))
      → (t : Shrinking) × (prepare others (record { base = begun s; counter = 0 }) ≡ (ok tt, t))
        × Ready s.path wal_header 0 fs t
        × Compacting (others before_create (begun s)) wal_header 0 t
  unfolding prepare
  prepare-Ready others s h work =
      let b = Work-Beside h work in
      let (t, ran, k) =
        prepare-Reaches (record { base = others before_create (begun s); counter = 0 })
          b.shared.quiet refl in
      (t, ran, Shared-Ready b.shared b.captured b.same_path k, k)

  module _ {es : Window → List Entry} {others : Window → Store → Store}
      (busy : Busy es others) where
    -- The entries of the passes, over the orphans of `first` and the maps of `second`.
    abbrev pub found : Store → Store → List Entry
    found first second =
        entries_of orphan_text [] (range first.orphan_records)
        ++ map_entries (range second.persist_maps)

    snapshot-Ready :
        {home c : Bytes} {n : ℕ} {p : List Entry} {t : Shrinking}
        → Ready home c n p t
        → (second : Store) × SameMaps (others before_orphans t.base) second
          × ((t' : Shrinking) × (snapshot others t ≡ (ok tt, t'))
              × Ready home
                  (c
                    ++ log_bytes (found (others before_orphans t.base) (others before_maps second)))
                  (n + length (found (others before_orphans t.base) (others before_maps second)))
                  (((p ++ es before_orphans) ++ es before_maps) ++ es before_sync)
                  t')
    unfolding snapshot
    snapshot-Ready {home} {c} {n} {p} {t} r =
        let r₁ = Work-Ready r (busy before_orphans t.base r.shared) in
        let t₁ : Shrinking = record t { base = others before_orphans t.base } in
        let orphans : List Entry = entries_of orphan_text [] (range t₁.base.orphan_records) in
        let (t₂, e₂, h₂) =
          write_orphans-Reaches (range t₁.base.orphan_records) (orphans-HaveText r₁.shared)
            (Ready-Compacting r₁) in
        let r₂ = Compacting-Ready r₁ h₂ in
        let r₃ = Work-Ready r₂ (busy before_maps t₂.base r₂.shared) in
        let t₃ : Shrinking = record t₂ { base = others before_maps t₂.base } in
        let kept : List Entry = map_entries (range t₃.base.persist_maps) in
        let (t₄, e₄, h₄) =
          write_maps-Reaches (range t₃.base.persist_maps) (maps-HaveText r₃.shared)
            (Ready-Compacting r₃) in
        let r₄ = Compacting-Ready r₃ h₄ in
        let r₅ = Work-Ready r₄ (busy before_sync t₄.base r₄.shared) in
        let t₅ : Shrinking = record t₄ { base = others before_sync t₄.base } in
        let (t₆, e₆, h₆, _) = sync-Reaches stopped (Ready-Compacting r₅) in
        let flush : Go (Unit {0}) = with_tmp λ w. call (Os.sync w) stopped in
        (
          t₂.base,
          (
            ap (λ (x : Store). x.orphan_records) h₂.kept,
            ap (λ (x : Store). x.persist_maps) h₂.kept,
          ),
          (
            t₆,
            then_ok snapshot_orphans
                  (modify (others before_maps)
                    >> (snapshot_maps >> (modify (others before_sync) >> flush)))
                  t₁ e₂
                ∙ then_ok snapshot_maps (modify (others before_sync) >> flush) t₃ e₄
                ∙ e₆,
            Ready-at
                (append_assoc c (log_bytes orphans) (log_bytes kept)
                  ∙ ap (λ (b : Bytes). c ++ b) (sym (log_bytes-append orphans kept)))
                (omega (arith, length-append {0} orphans kept)) (Compacting-Ready r₅ h₆),
          ),
        )

    -- The last window and what follows, with `p` pending.
    finish-Ready :
        {home c : Bytes} {n : ℕ} {p : List Entry} {t : Shrinking}
        → Ready home c n p t
        → (t' : Shrinking) × ((modify (others before_swap) >> finish) t ≡ (ok tt, t'))
          × (others before_swap t.base).path ≡ home
          × Swapped
              (take_pending (stopped (others before_swap t.base)))
              (c ++ log_bytes (p ++ es before_swap))
              (n + length (p ++ es before_swap))
              t'.base
    finish-Ready {home} {c} {n} {p} {t} r =
        let r₁ = Work-Ready r (busy before_swap t.base r.shared) in
        let (t', ran, swapped) =
          finish-Swapped (p ++ es before_swap) r₁.pending (Ready-Compacting r₁) in
        (t', ran, r₁.at_home, swapped)

    -- What a `Shrink` leaves, where `first` and `second` are the stores before the windows of the
    -- orphans and of the maps, and `last` the store before the last window.
    pub record Rewritten (s s' : Store) : Type 0 where
      pub first : Store
      pub first_same : SameMaps (others before_create (begun s)) first
      pub second : Store
      pub second_same : SameMaps (others before_orphans first) second
      pub last : Store
      pub at_home : (others before_swap last).path ≡ s.path
      pub log :
          Swapped
            (take_pending (stopped (others before_swap last)))
            (wal_header
              ++ log_bytes (
                  found (others before_orphans first) (others before_maps second)
                  ++ acknowledged es))
            (length
              (found (others before_orphans first) (others before_maps second) ++ acknowledged es))
            s'

    -- A `Shrink` while other goroutines write, delete and change the maps in memory, of a store that is
    -- open on its log and at rest, if every value has a JSON text and no call of the operating system
    -- fails: it returns nil. The new log holds the entries that the pass over the orphans has found,
    -- those that the pass over the maps has found, and then every record that the other goroutines
    -- have written in the windows, in order. It is on the disk at the same path and its entries are
    -- counted, modulo 2 ^ 32; the store appends to it, is at rest with nothing pending, and its maps
    -- are as the last window has left them.
    pub shrink-Rewritten :
        (s : Store)
        → s.shrinking ≡ false
        → Shared (begun s)
        → ((shrink others s).0 ≡ ok tt) × Rewritten s (shrink others s).1
    unfolding compact
    shrink-Rewritten s at_rest h =
        let start : Shrinking = record { base = begun s; counter = 0 } in
        let (t₁, e₁, r₁, k₁) = prepare-Ready others s h (busy before_create (begun s) h) in
        let (second, same₂, (t₂, e₂, r₂)) = snapshot-Ready r₁ in
        let (out, left, form, (t₃, e₃, r₃)) = drain-Drains busy 3 r₂ in
        let (t₄, e₄, home, swapped) = finish-Ready r₃ in
        let fs : List Entry = found (others before_orphans t₁.base) (others before_maps second) in
        let all : acknowledged es ≡ out ++ (left ++ es before_swap) =
          ap (λ (l : List Entry). l ++ es before_swap) form
          ∙ append_assoc out left (es before_swap) in
        let content =
          append_assoc (wal_header ++ log_bytes fs) (log_bytes out)
            (log_bytes (left ++ es before_swap))
          ∙ ap (λ (b : Bytes). (wal_header ++ log_bytes fs) ++ b)
              (sym (log_bytes-append out (left ++ es before_swap)))
          ∙ append_assoc wal_header (log_bytes fs) (log_bytes (out ++ (left ++ es before_swap)))
          ∙ ap (λ (b : Bytes). wal_header ++ b)
              (sym (log_bytes-append fs (out ++ (left ++ es before_swap))))
          ∙ ap (λ (l : List Entry). wal_header ++ log_bytes (fs ++ l)) (sym all) in
        let count : 0 + length fs + length out + length (left ++ es before_swap)
            ≡ length (fs ++ acknowledged es) =
          omega (
            arith,
            length-append {0} fs (acknowledged es),
            ap (λ (l : List Entry). length l) all,
            length-append {0} out (left ++ es before_swap),
          ) in
        let rest : Go (Unit {0}) = modify (others before_swap) >> finish in
        let run : compact others start ≡ (ok tt, t₄) =
          then_ok (prepare others) (snapshot others >> (drain others 3 >> rest)) start e₁
          ∙ then_ok (snapshot others) (drain others 3 >> rest) t₁ e₂
          ∙ then_ok (drain others 3) rest t₂ e₃
          ∙ e₄ in
        rw (shrink_runs others s h.is_loaded at_rest) (
          rw run (
            refl,
            record {
              first = t₁.base;
              first_same = (
                ap (λ (x : Store). x.orphan_records) k₁.kept,
                ap (λ (x : Store). x.persist_maps) k₁.kept,
              );
              second = second;
              second_same = same₂;
              last = t₃.base;
              at_home = home;
              log = Swapped-at content count swapped;
            },
          ))
