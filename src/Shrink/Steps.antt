-- ===== src/Shrink/Steps.antt =====
-- The passes of `Shrink` over the orphans and the pending records, when no call of the
-- operating system fails.
use go_persist.Base.{
  ℕ, ◌+◌, ◌≡◌, refl, sym, ap, ◌∙◌, Option, none, some, List, [], ◌∷◌, ◌++◌, Bytes, append_assoc,
  append-nil, length, arith, map, ◌≢◌, All, Option-cases, inl, inr,
}
use go_persist.Env.XsyncMap.{XsyncMap}
use go_persist.Env.Json.{Json}
use go_persist.Env.Os
use go_persist.Env.Os.{Os, File, Handle, at}
use go_persist.Record.{set_record}
use go_persist.Record.Entry.{Entry, line_bytes, log_bytes}
use go_persist.Shrink.{
  Shrinking, stopped, ◌>>◌, tmp_path, call, count, value_text, write_orphan, write_orphans,
  write_pending, with_tmp,
}
use go_persist.State.{Store}
use go_persist.Shrink.Compacting.{
  then_ok, Compacting, Compacting-at, Reaches, appended, call-write, appended-Compacting,
  count-Reaches,
}

module _ ⦃maps : XsyncMap⦄ ⦃json : Json⦄ where
  open maps use {range}
  open json use {Value, as_string, marshal}

  -- The entries that a pass over a map writes, where `text` is the line of a value.
  unfoldable pub entries_of : (Value → Option Bytes) → Bytes → List (Bytes × Value) → List Entry
  entries_of text p [] = []
  entries_of text p ((k, v) ∷ l) = elim (text v) [
    | none ↦ entries_of text p l
    | some line ↦ Entry.set (p ++ k) line ∷ entries_of text p l
  ]

  pub entries_of-some :
      (text : Value → Option Bytes) (p k : Bytes) (v : Value) (l : List (Bytes × Value))
      {line : Bytes}
      → text v ≡ some line
      → entries_of text p ((k, v) ∷ l) ≡ Entry.set (p ++ k) line ∷ entries_of text p l
  unfolding entries_of
  entries_of-some text p k v l e = rw (e, entries_of)

  abbrev pub orphan_text : Value → Option Bytes
  orphan_text v = value_text v (as_string v)

  abbrev pub HaveText : (Value → Option Bytes) → List (Bytes × Value) → Type 0
  HaveText text = All (λ e. text e.1 ≢ none)

  write_orphan-Reaches :
      {s : Store} {c : Bytes} {n : ℕ} {t : Shrinking} (h : Compacting s c n t) (key line : Bytes)
      → Reaches s (c ++ set_record key line) (n + 1) (write_orphan key (some line)) t
  unfolding set_record
  write_orphan-Reaches {s} {c} {n} {t} h key line =
      let header : Bytes = b'S' ∷ b' ' ∷ (key ++ b'\n' ∷ []) in
      let text : Bytes = line ++ b'\n' ∷ [] in
      let h₁ = appended-Compacting h header in
      let h₂ = appended-Compacting h₁ text in
      let (t', counts, h₃) = count-Reaches h₂ 1 in
      (
        t',
        then_ok (call (Os.write (at (tmp_path t.base)) header) stopped)
              (call (Os.write (at (tmp_path t.base)) text) stopped >> count 1) t
              (call-write h stopped header)
            ∙ then_ok (call (Os.write (at (tmp_path t.base)) text) stopped) (count 1)
                (appended h header) (call-write h₁ stopped text)
            ∙ counts,
        rw (← append_assoc c header text) h₃,
      )

  pub write_orphans-Reaches :
      {s : Store} {c : Bytes} {n : ℕ} {t : Shrinking} (l : List (Bytes × Value))
      → HaveText orphan_text l
      → Compacting s c n t
      → Reaches s
          (c ++ log_bytes (entries_of orphan_text [] l))
          (n + length (entries_of orphan_text [] l))
          (write_orphans l)
          t
  unfolding write_orphans entries_of log_bytes line_bytes
  write_orphans-Reaches {s} {c} {n} {t} [] texts h =
      (t, refl, Compacting-at (sym (append-nil c)) (omega arith) h)
  write_orphans-Reaches {s} {c} {n} {t} ((k, v) ∷ l) (has, texts) h =
      elim (Option-cases (orphan_text v)) [
        | inl e ↦ absurd (has e)
        | inr (line, e) ↦
            let (t₁, step, h₁) = write_orphan-Reaches h k line in
            let (t₂, steps, h₂) =
              write_orphans-Reaches {c = c ++ set_record k line} {n = n + 1} {t = t₁} l texts h₁ in
            (
              t₂,
              then_ok (write_orphan k (orphan_text v)) (write_orphans l) t
                    (ap (λ (o : Option Bytes). write_orphan k o t) e ∙ step)
                  ∙ steps,
              Compacting-at
                  (append_assoc c (set_record k line) (log_bytes (entries_of orphan_text [] l))
                    ∙ sym (
                        ap (λ (es : List Entry). c ++ log_bytes es)
                          (entries_of-some orphan_text [] k v l e)))
                  (let one =
                      ap (λ (es : List Entry). length es)
                        (entries_of-some orphan_text [] k v l e) in
                    omega (arith, one))
                  h₂,
            )
      ]

  pub write_pending-Reaches :
      (undo : Store → Store) {s : Store} {c : Bytes} {n : ℕ} {t : Shrinking} (es : List Entry)
      → Compacting s c n t
      → Reaches s (c ++ log_bytes es) (n + length es) (write_pending undo (map line_bytes es)) t
  unfolding write_pending log_bytes
  write_pending-Reaches undo {c = c} {t = t} [] h =
      (t, refl, Compacting-at (sym (append-nil c)) (omega arith) h)
  write_pending-Reaches undo {c = c} {n = n} {t = t} (e ∷ es) h =
      let h₁ = appended-Compacting h (line_bytes e) in
      let (t₂, counts, h₂) = count-Reaches h₁ 1 in
      let (t₃, steps, h₃) =
        write_pending-Reaches undo {c = c ++ line_bytes e} {n = n + 1} {t = t₂} es h₂ in
      (
        t₃,
        then_ok (with_tmp λ w. call (Os.write w (line_bytes e)) undo)
              (count 1 >> write_pending undo (map line_bytes es)) t
              (call-write h undo (line_bytes e))
            ∙ then_ok (count 1) (write_pending undo (map line_bytes es)) (appended h (line_bytes e))
                counts
            ∙ steps,
        Compacting-at (append_assoc c (line_bytes e) (log_bytes es)) (omega arith) h₃,
      )
