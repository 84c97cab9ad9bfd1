-- ===== src/Shrink/Calls.antt =====
-- Calls of `write` and `Store.Delete` beside `Shrink`.
use mathlib.Core.Path.{subst}
use go_persist.Base.{◌≡◌, refl, sym, some, List, Bytes, equal, Bool-cases, inl, inr}
use go_persist.Env.XsyncMap.{XsyncMap}
use go_persist.Env.Json.{Json}
use go_persist.Record.Entry.{Entry}
use go_persist.Shrink.Work as Works
use go_persist.Shrink.Work.{Shared, Work, Beside, Work-Beside, write_shared, delete_shared, after}
use go_persist.State.{Store}
use go_persist.Wal.Writes.{Writes, nothing, set, delete}

module _ ⦃maps : XsyncMap⦄ ⦃json : Json⦄ where
  open maps use {Map, load, load-delete}
  open json use {Value}

  pub Writes-Work : {s s' : Store} {es : List Entry} → Writes s es s' → Work s es s'
  Writes-Work nothing = Works.nothing
  Writes-Work (set key v json_of success calls) =
      Works.writes key v json_of success (Writes-Work calls)
  Writes-Work (delete key success calls) = Works.deletes key success (Writes-Work calls)

  -- The orphans of `m'` are among those of `m`.
  abbrev pub Fewer : Map Value → Map Value → Type 0
  Fewer m m' = (k : Bytes) (v : Value) → load m' k ≡ some v → load m k ≡ some v

  Fewer-delete : (m : Map Value) (key : Bytes) → Fewer m (maps.delete m key)
  Fewer-delete m key k v there = elim (Bool-cases (equal key k)) [
    | inl same ↦ cc (rw (load-delete m key k, same) at there)
    | inr other ↦ rw (load-delete m key k, other) at there
  ]

  -- Such calls leave the registered maps alone, and bring no orphan.
  pub record Quiet (s s' : Store) : Type 0 where
    pub same_maps : s'.persist_maps ≡ s.persist_maps
    pub fewer : Fewer s.orphan_records s'.orphan_records

  pub Writes-Quiet : {s s' : Store} {es : List Entry} → Shared s → Writes s es s' → Quiet s s'
  Writes-Quiet h nothing = record { same_maps = refl; fewer = λ k v there. there }
  Writes-Quiet {s} h (set {s' = s₁} key v {line} json_of success calls) =
      let q = Writes-Quiet h calls in
      let b = Work-Beside h (Writes-Work calls) in
      subst (Quiet s) (sym (write_shared b.shared key v json_of success))
        (record { same_maps = q.same_maps; fewer = q.fewer })
  Writes-Quiet {s} h (delete {s' = s₁} key success calls) =
      let q = Writes-Quiet h calls in
      let b = Work-Beside h (Writes-Work calls) in
      subst (Quiet s) (sym (delete_shared b.shared key)) (record {
        same_maps = q.same_maps;
        fewer = λ k v there. q.fewer k v (Fewer-delete s₁.orphan_records key k v there);
      })
