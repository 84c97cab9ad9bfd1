-- ===== src/Shrink/Swap.antt =====
-- The end of `Shrink`, under its last lock, when no call of the operating system fails.
use mathlib.Core.Path.{subst₂}
use go_persist.Base.{
  ℕ, map, ◌+◌, ◌%◌, ◌≡◌, refl, sym, ap, ◌∙◌, true, some, List, [], ◌++◌, Bytes, length,
}
use go_persist.Env.XsyncMap.{XsyncMap}
use go_persist.Env.Json.{Json}
use go_persist.Env.Os
use go_persist.Env.Os.{Os, File, at}
use go_persist.Record.Entry.{Entry, line_bytes, log_bytes}
use go_persist.Result.{ok}
use go_persist.Shrink.{
  Shrinking, Go, ◌>>◌, tmp_path, call, modify, stopped, keep_store, close_file, take_pending,
  with_tmp, write_last, write_pending, swap, finish, rename_tmp, reopen, install,
}
use go_persist.Shrink.Compacting.{Compacting, files-put_tmp, then_ok, call_ok, with_os}
use go_persist.Shrink.Steps.{write_pending-Reaches}
use go_persist.State.{Store}
use go_persist.Wal.{int32_mod}

rename_no_faults :
    (old new : Bytes) (os : Os) {file : File}
    → os.files old ≡ some file
    → os.faults ≡ []
    → Os.rename old new os ≡ (true, Os.put new file (Os.forget old os))
unfolding Os.rename
rename_no_faults old new os there quiet = rw (there, quiet)

open_append_no_faults :
    (name : Bytes) (os : Os) {file : File}
    → os.files name ≡ some file
    → os.faults ≡ []
    → Os.open_append name os ≡ (true, os)
unfolding Os.open_append
open_append_no_faults name os there quiet = rw (there, quiet)

module _ ⦃maps : XsyncMap⦄ ⦃json : Json⦄ where
  pub sync-Reaches :
      {s : Store} {c : Bytes} {n : ℕ} {t : Shrinking} (undo : Store → Store)
      (h : Compacting s c n t)
      → (t' : Shrinking) × (call (Os.sync (at (tmp_path t.base))) undo t ≡ (ok tt, t'))
        × (k : Compacting s c n t') × (k.synced ≡ length c)
  sync-Reaches {s} {c} {n} {t} undo h = (
    _,
    call_ok (Os.sync (at (tmp_path t.base))) undo t
        (Os.sync_no_faults (tmp_path t.base) t.base.os h.there h.quiet),
    record {
      synced = length c;
      there = Os.files-put_self (tmp_path t.base) _ t.base.os;
      quiet = h.quiet;
      kept =
          ap
            (λ (x : Store). record x {
              os = Os.put (tmp_path t.base) (record { content = c; synced = length c }) t.base.os;
            })
            h.kept;
      counted = h.counted;
      log_kept = files-put_tmp s t _ t.base.os h.kept ∙ h.log_kept;
    },
    refl,
  )

  -- The compacted file is in its place, and the store appends to it.
  pub record Swapped (s : Store) (c : Bytes) (n : ℕ) (s' : Store) : Type 0 where
    pub there : s'.os.files s.path ≡ some (record { content = c; synced = length c })
    pub quiet : s'.os.faults ≡ []
    pub kept : s' ≡ record s { os = s'.os; f = at s.path; total_wal_records = n % int32_mod }

  pub Swapped-at :
      {s s' : Store} {c c' : Bytes} {n n' : ℕ}
      → c ≡ c'
      → n ≡ n'
      → Swapped s c n s'
      → Swapped s c' n' s'
  Swapped-at {s} {s'} e f = subst₂ (λ c n. Swapped s c n s') e f

  pub swap-Swapped :
      {s : Store} {c : Bytes} {n : ℕ} {t : Shrinking} (h : Compacting s c n t)
      → h.synced ≡ length c
      → (t' : Shrinking) × (swap t ≡ (ok tt, t')) × Swapped s c n t'.base
  unfolding swap
  swap-Swapped {s} {c} {n} {t} h flushed =
      let closing : Shrinking = record t { base = close_file t.base } in
      let os₁ : Os =
        Os.put t.base.path (record { content = c; synced = h.synced })
          (Os.forget (tmp_path t.base) t.base.os) in
      let renamed : Shrinking = with_os os₁ closing in
      let in_place =
        Os.files-put_self t.base.path (record { content = c; synced = h.synced })
          (Os.forget (tmp_path t.base) t.base.os) in
      let idle_call = call_ok Os.attempt keep_store t (Os.attempt_no_faults t.base.os h.quiet) in
      let idle_close =
        call_ok Os.attempt keep_store closing (Os.attempt_no_faults t.base.os h.quiet) in
      (
        _,
        then_ok (call Os.attempt keep_store)
              (modify close_file
                >> (call Os.attempt keep_store >> (rename_tmp >> (reopen >> install))))
              t idle_call
            ∙ then_ok (call Os.attempt keep_store) (rename_tmp >> (reopen >> install)) closing
                idle_close
            ∙ then_ok rename_tmp (reopen >> install) closing (
                call_ok (Os.rename (tmp_path t.base) t.base.path) keep_store closing
                  (rename_no_faults (tmp_path t.base) t.base.path t.base.os h.there h.quiet))
            ∙ then_ok reopen install renamed (
                call_ok (Os.open_append t.base.path) keep_store renamed
                  (open_append_no_faults t.base.path os₁ in_place h.quiet)),
        record {
          there =
              ap (λ (p : Bytes). os₁.files p) (sym (ap (λ (x : Store). x.path) h.kept))
              ∙ in_place
              ∙ ap (λ (k : ℕ). some (record { content = c; synced = k })) flushed;
          quiet = h.quiet;
          kept =
              ap
                (λ (x : Store). record x { os = os₁; f = at x.path; total_wal_records = t.counter })
                h.kept
              ∙ ap (λ (m : ℕ). record s { os = os₁; f = at s.path; total_wal_records = m })
                  h.counted;
        },
      )

  pub finish-Swapped :
      {s : Store} {c : Bytes} {n : ℕ} {t : Shrinking} (es : List Entry)
      → s.pending_records ≡ map line_bytes es
      → Compacting s c n t
      → (t' : Shrinking) × (finish t ≡ (ok tt, t'))
        × Swapped (take_pending (stopped s)) (c ++ log_bytes es) (n + length es) t'.base
  unfolding finish
  finish-Swapped {s} {c} {n} {t} es pending h =
      let ready : Shrinking = record t { base = stopped t.base } in
      let h₁ : Compacting (stopped s) c n ready = record {
        synced = h.synced;
        there = h.there;
        quiet = h.quiet;
        kept = ap stopped h.kept;
        counted = h.counted;
        log_kept = h.log_kept;
      } in
      let (t₂, written, h₂) = write_pending-Reaches keep_store es h₁ in
      let cleared : Shrinking = record t₂ { base = take_pending t₂.base } in
      let h₃ : Compacting (take_pending (stopped s)) (c ++ log_bytes es) (n + length es) cleared =
        record {
          synced = h₂.synced;
          there = h₂.there;
          quiet = h₂.quiet;
          kept = ap take_pending h₂.kept;
          counted = h₂.counted;
          log_kept = h₂.log_kept;
        } in
      let (t₄, synced, h₄, flushed) = sync-Reaches keep_store h₃ in
      let (t₅, swapped, result) = swap-Swapped h₄ flushed in
      let flush : Go (Unit {0}) = with_tmp λ w. call (Os.sync w) keep_store in
      (
        t₅,
        then_ok write_last (modify take_pending >> (flush >> swap)) ready (
              ap (λ (l : List Bytes). write_pending keep_store l ready)
                (ap (λ (x : Store). x.pending_records) h.kept ∙ pending)
              ∙ written)
            ∙ then_ok flush swap cleared synced
            ∙ swapped,
        result,
      )
