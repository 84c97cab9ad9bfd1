-- ===== src/Shrink/Guarded/Phases.antt =====
-- A whole `Shrink` while other goroutines keep a property of the store in each of its phases.
use go_persist.Base.{
  ℕ, ◌+◌, ◌≡◌, refl, sym, ap, ◌∙◌, false, List, [], ◌∷◌, ◌++◌, Bytes, append_assoc, length,
  length-append, arith,
}
use go_persist.Env.XsyncMap.{XsyncMap}
use go_persist.Env.Json.{Json}
use go_persist.Env.Os
use go_persist.Record.Entry.{Entry, log_bytes}
use go_persist.Result.{ok}
use go_persist.Shrink.{
  Window, before_create, before_orphans, before_maps, before_sync, before_swap, Shrinking, Go, ◌>>◌,
  call, modify, stopped, with_tmp, snapshot_orphans, snapshot_maps, prepare, snapshot, drain,
  finish, compact, shrink, take_pending,
}
use go_persist.Shrink.Alone.{shrink_runs}
use go_persist.Shrink.Compacting.{then_ok, log_bytes-append}
use go_persist.Shrink.Interleaved.{begun, prepare-Ready}
use go_persist.Shrink.Steps.{entries_of, orphan_text, write_orphans-Reaches}
use go_persist.Shrink.MapPass.{map_entries, write_maps-Reaches}
use go_persist.Shrink.Swap.{sync-Reaches, Swapped, Swapped-at, finish-Swapped}
use go_persist.Shrink.Windows.{
  Ready, Ready-at, Ready-Compacting, Compacting-Ready, orphans-HaveText, maps-HaveText,
}
use go_persist.Shrink.Work.{Shared}
use go_persist.State.{Store}
use go_persist.Wal.{wal_header}
use go_persist.Shrink.Guarded.{Rounds, Guard, window-Ready, drain-Keeps}

module _ ⦃maps : XsyncMap⦄ ⦃json : Json⦄ where
  open maps use {range}

  -- The entries of the pass over the orphans, and those of the pass over the maps.
  abbrev pub orphan_entries : Store → List Entry
  orphan_entries s = entries_of orphan_text [] (range s.orphan_records)

  abbrev pub all_map_entries : Store → List Entry
  all_map_entries s = map_entries (range s.persist_maps)

  -- What a run of `others` keeps beside `Shrink`: `Early found ws p s` up to the pass over the maps,
  -- where `found` are the entries of the pass over the orphans, `Late found ws p s` behind it, where
  -- `found` are those of both passes.
  pub record Phases (others : Window → Store → Store)
      (Early Late : List Entry → List Window → List Entry → Store → Type 0) : Type 0 where
    pub early : (found : List Entry) → Guard others (Early found)
    pub late : (found : List Entry) → Guard others (Late found)
    pub orphan_pass :
        (ws : List Window) (p : List Entry) (s : Store)
        → Shared s
        → Early [] ws p s
        → Early (orphan_entries s) ws p s
    pub map_pass :
        (found : List Entry) (ws : List Window) (p : List Entry) (s : Store)
        → Shared s
        → Early found ws p s
        → Late (found ++ all_map_entries s) ws p s

  -- The windows of a `Shrink`, in order, where `rounds` are those of the drain.
  abbrev pub all_windows : List Window → List Window
  all_windows rounds =
      before_create ∷ before_orphans ∷ before_maps ∷ before_sync ∷ (rounds ++ before_swap ∷ [])

  -- What a `Shrink` leaves: a log of the entries that the passes have found and of those that the
  -- other goroutines have written, of a store on which `Late` holds.
  pub record Compacted (Late : List Entry → List Window → List Entry → Store → Type 0)
      (home : Bytes) (s' : Store) : Type 0 where
    pub found : List Entry
    pub rounds : List Window
    pub drained : Rounds 3 rounds
    pub written : List Entry
    pub last : Store
    pub shared : Shared last
    pub held : Late found (all_windows rounds) written last
    pub at_home : last.path ≡ home
    pub log :
        Swapped
          (take_pending (stopped last))
          (wal_header ++ log_bytes (found ++ written))
          (length (found ++ written))
          s'

  module _ {others : Window → Store → Store}
      {Early Late : List Entry → List Window → List Entry → Store → Type 0}
      (phases : Phases others Early Late) where
    snapshot-Keeps :
        {home c : Bytes} {n : ℕ} {p : List Entry} {t : Shrinking}
        → Ready home c n p t
        → Early [] (before_create ∷ []) p t.base
        → (found q : List Entry) × ((t' : Shrinking) × (snapshot others t ≡ (ok tt, t'))
            × Ready home (c ++ log_bytes found) (n + length found) q t'
            × Late found
                (before_create ∷ before_orphans ∷ before_maps ∷ before_sync ∷ [])
                q
                t'.base)
    unfolding snapshot
    snapshot-Keeps {home} {c} {n} {p} {t} r held =
        let (fs₁, r₁, held₁) = window-Ready (phases.early []) before_orphans r held in
        let t₁ : Shrinking = record t { base = others before_orphans t.base } in
        let orphans : List Entry = orphan_entries t₁.base in
        let (t₂, e₂, h₂) =
          write_orphans-Reaches (range t₁.base.orphan_records) (orphans-HaveText r₁.shared)
            (Ready-Compacting r₁) in
        let early = phases.early orphans in
        let held₂ = early.compacts h₂ (phases.orphan_pass _ (p ++ fs₁) t₁.base r₁.shared held₁) in
        let (fs₃, r₃, held₃) = window-Ready early before_maps (Compacting-Ready r₁ h₂) held₂ in
        let t₃ : Shrinking = record t₂ { base = others before_maps t₂.base } in
        let kept : List Entry = all_map_entries t₃.base in
        let (t₄, e₄, h₄) =
          write_maps-Reaches (range t₃.base.persist_maps) (maps-HaveText r₃.shared)
            (Ready-Compacting r₃) in
        let late = phases.late (orphans ++ kept) in
        let held₄ =
          late.compacts h₄
            (phases.map_pass orphans _ ((p ++ fs₁) ++ fs₃) t₃.base r₃.shared held₃) in
        let (fs₅, r₅, held₅) = window-Ready late before_sync (Compacting-Ready r₃ h₄) held₄ in
        let t₅ : Shrinking = record t₄ { base = others before_sync t₄.base } in
        let (t₆, e₆, h₆, _) = sync-Reaches stopped (Ready-Compacting r₅) in
        let flush : Go (Unit {0}) = with_tmp λ w. call (Os.sync w) stopped in
        (
          orphans ++ kept,
          ((p ++ fs₁) ++ fs₃) ++ fs₅,
          (
            t₆,
            then_ok snapshot_orphans
                  (modify (others before_maps)
                    >> (snapshot_maps >> (modify (others before_sync) >> flush)))
                  t₁ e₂
                ∙ then_ok snapshot_maps (modify (others before_sync) >> flush) t₃ e₄
                ∙ e₆,
            Ready-at
                (append_assoc c (log_bytes orphans) (log_bytes kept)
                  ∙ ap (λ (b : Bytes). c ++ b) (sym (log_bytes-append orphans kept)))
                (omega (arith, length-append {0} orphans kept)) (Compacting-Ready r₅ h₆),
            late.compacts h₆ held₅,
          ),
        )

    -- A `Shrink` of a store that is open on its log and at rest, if every value has a JSON text and
    -- no call of the operating system fails, while other goroutines keep the phases: it returns nil.
    pub shrink-Compacted :
        (s : Store)
        → s.shrinking ≡ false
        → Shared (begun s)
        → Early [] [] [] (begun s)
        → ((shrink others s).0 ≡ ok tt) × Compacted Late s.path (shrink others s).1
    unfolding compact
    shrink-Compacted s at_rest h held =
        let start : Shrinking = record { base = begun s; counter = 0 } in
        let early = phases.early [] in
        let (fs₁, work₁, held₁) = early.works before_create [] [] (begun s) h held in
        let (t₁, e₁, r₁, k₁) = prepare-Ready others s h work₁ in
        let (found, q, (t₂, e₂, r₂, held₂)) = snapshot-Keeps r₁ (early.compacts k₁ held₁) in
        let late = phases.late found in
        let (vs, last, (out, left, (t₃, e₃, r₃, held₃))) = drain-Keeps late 3 _ [] q r₂ held₂ in
        let (fs₄, r₄, held₄) = window-Ready late before_swap r₃ held₃ in
        let (t₄, e₄, swapped) = finish-Swapped (left ++ fs₄) r₄.pending (Ready-Compacting r₄) in
        let written : List Entry = (out ++ left) ++ fs₄ in
        let all : out ++ (left ++ fs₄) ≡ written = sym (append_assoc out left fs₄) in
        let content =
          append_assoc (wal_header ++ log_bytes found) (log_bytes out) (log_bytes (left ++ fs₄))
          ∙ ap (λ (b : Bytes). (wal_header ++ log_bytes found) ++ b)
              (sym (log_bytes-append out (left ++ fs₄)))
          ∙ append_assoc wal_header (log_bytes found) (log_bytes (out ++ (left ++ fs₄)))
          ∙ ap (λ (b : Bytes). wal_header ++ b)
              (sym (log_bytes-append found (out ++ (left ++ fs₄))))
          ∙ ap (λ (l : List Entry). wal_header ++ log_bytes (found ++ l)) all in
        let count : 0 + length found + length out + length (left ++ fs₄)
            ≡ length (found ++ written) =
          omega (
            arith,
            length-append {0} found written,
            ap (λ (l : List Entry). length l) all,
            length-append {0} out (left ++ fs₄),
          ) in
        let rest : Go (Unit {0}) = modify (others before_swap) >> finish in
        let run : compact others start ≡ (ok tt, t₄) =
          then_ok (prepare others) (snapshot others >> (drain others 3 >> rest)) start e₁
          ∙ then_ok (snapshot others) (drain others 3 >> rest) t₁ e₂
          ∙ then_ok (drain others 3) rest t₂ e₃
          ∙ e₄ in
        rw (shrink_runs others s h.is_loaded at_rest) (
          rw run (
            refl,
            record {
              found = found;
              rounds = vs;
              drained = last;
              written = written;
              last = others before_swap t₃.base;
              shared = r₄.shared;
              held = held₄;
              at_home = r₄.at_home;
              log = Swapped-at content count swapped;
            },
          ))
