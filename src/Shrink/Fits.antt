-- ===== src/Shrink/Fits.antt =====
-- When the entries that a pass writes can be read back.
use mathlib.Core.Path.{subst}
use go_persist.Base.{
  ◌≡◌, sym, ◌∙◌, Option, some, List, [], ◌∷◌, ◌++◌, Bytes, All, All-append, Option-cases, inl, inr,
}
use go_persist.Env.XsyncMap.{XsyncMap}
use go_persist.Env.Json.{Json}
use go_persist.Record.{buffer_size}
use go_persist.Record.Entry.{Entry, IsReadable}
use go_persist.Shrink.Contents.{All-lookup}
use go_persist.Shrink.Steps.{entries_of, entries_of-some}
use go_persist.Shrink.MapPass.{map_entries}
use go_persist.State.{PersistMap}

module _ ⦃maps : XsyncMap⦄ ⦃json : Json⦄ where
  open maps use {Map, load, range, lookup-range, range-Distinct}
  open json use {Value, marshal}

  -- The record of a key and of the text that its value has, if it has one, can be read back.
  abbrev pub Fits : (Value → Option Bytes) → Bytes → Bytes × Value → Type 0
  Fits text p (k, v) =
      (line : Bytes) → text v ≡ some line → IsReadable buffer_size (Entry.set (p ++ k) line)

  abbrev pub AllFit : (Value → Option Bytes) → Bytes → Map Value → Type 0
  AllFit text p m = (k : Bytes) (v : Value) → load m k ≡ some v → Fits text p (k, v)

  abbrev pub MapsFit : Map PersistMap → Type 0
  MapsFit m =
      (n : Bytes) (pm : PersistMap) → load m n ≡ some pm → AllFit marshal pm.prefix pm.data_map

  entries_of-IsReadable :
      (text : Value → Option Bytes) (p : Bytes) (l : List (Bytes × Value))
      → All (Fits text p) l
      → All (IsReadable buffer_size) (entries_of text p l)
  unfolding entries_of
  entries_of-IsReadable text p [] fits = tt
  entries_of-IsReadable text p ((k, v) ∷ l) (first, fits) = elim (Option-cases (text v)) [
    | inl e ↦ rw (e, entries_of) (entries_of-IsReadable text p l fits)
    | inr (line, e) ↦
        subst (All (IsReadable buffer_size)) (sym (entries_of-some text p k v l e))
          (first line e, entries_of-IsReadable text p l fits)
  ]

  pub range-IsReadable :
      (text : Value → Option Bytes) (p : Bytes) (m : Map Value)
      → AllFit text p m
      → All (IsReadable buffer_size) (entries_of text p (range m))
  range-IsReadable text p m fits = entries_of-IsReadable text p (range m) (
      All-lookup (Fits text p) (range m) (range-Distinct m)
        (λ k v there. fits k v (sym (lookup-range m k) ∙ there)))

  map_entries-IsReadable :
      (l : List (Bytes × PersistMap))
      → All (λ e. AllFit marshal e.1.prefix e.1.data_map) l
      → All (IsReadable buffer_size) (map_entries l)
  unfolding map_entries
  map_entries-IsReadable [] fits = tt
  map_entries-IsReadable ((name, pm) ∷ l) (first, fits) =
      All-append (IsReadable buffer_size) (entries_of marshal pm.prefix (range pm.data_map))
        (map_entries l) (range-IsReadable marshal pm.prefix pm.data_map first)
        (map_entries-IsReadable l fits)

  pub maps-IsReadable :
      (m : Map PersistMap) → MapsFit m → All (IsReadable buffer_size) (map_entries (range m))
  maps-IsReadable m fits = map_entries-IsReadable (range m) (
      All-lookup (λ e. AllFit marshal e.1.prefix e.1.data_map) (range m) (range-Distinct m)
        (λ n pm there. fits n pm (sym (lookup-range m n) ∙ there)))
