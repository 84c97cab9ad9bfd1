-- ===== src/PersistMap/Durable.antt =====
-- The log of a store holds what its map holds in memory, but for the dirty keys.
pub mod Grown
pub mod Calls
pub mod Async
pub mod Sync
pub mod Fsync
use mathlib.Core.Path.{subst, subst₂}
use go_persist.Base.{
  All, All-append, append-nil, append_assoc, ℕ, ◌≡◌, ◌≢◌, refl, sym, ap, ◌∙◌, Bool, true, false,
  Option, none, some, List, [], ◌∷◌, ◌++◌, Bytes, arith, equal, equal_iff, equal_refl,
  if◌then◌else◌, ◌&&◌, ◌==◌, Bool-cases, inl, inr,
}
use go_persist.Env.XsyncMap.{XsyncMap, Outcome, keep, remove}
use go_persist.Env.Json.{Json}
use go_persist.Key.{validate_key}
use go_persist.Record.{buffer_size}
use go_persist.Record.Entry as Entry
use go_persist.Record.Entry.{Entry, IsReadable}
use go_persist.Result.{Result, ok}
use go_persist.State.{PersistMap, Store}
use go_persist.Wal.{write, delete_key}
use go_persist.Wal.Effects.{
  Contents, apply, replay, replay-append, HasLog, HasLog-orphans, logged, logged-HasLog, write_lem,
  delete_key_lem,
}
use go_persist.Wal.Writes.{Writes, Writes-trans, nothing, set-Writes, delete-Writes}
use go_persist.PersistMap.{
  is_some, set, set_async, delete_now, delete_async, sync_key, sync, report,
}

pub equal-append_left : (p a b : Bytes) → equal (p ++ a) (p ++ b) ≡ equal a b
unfolding equal
equal-append_left [] a b = refl
equal-append_left (x ∷ p) a b = ground (arith, equal-append_left p a b)

abbrev pub no_contents : Contents
no_contents key = none

replay_last :
    (es : List Entry) (e : Entry) (key : Bytes)
    → replay no_contents (es ++ e ∷ []) key ≡ apply e (replay no_contents es) key
unfolding replay
replay_last es e key = ap (λ (m : Contents). m key) (replay-append no_contents es (e ∷ []))

pub replay-set :
    (es : List Entry) (p k line j : Bytes)
    → replay no_contents (es ++ Entry.set (p ++ k) line ∷ []) (p ++ j)
      ≡ (if equal k j then some line else replay no_contents es (p ++ j))
replay-set es p k line j =
    replay_last es (Entry.set (p ++ k) line) (p ++ j) ∙ rw (equal-append_left p k j)

pub replay-delete :
    (es : List Entry) (p k j : Bytes)
    → replay no_contents (es ++ Entry.delete (p ++ k) ∷ []) (p ++ j)
      ≡ (if equal k j then none else replay no_contents es (p ++ j))
replay-delete es p k j =
    replay_last es (Entry.delete (p ++ k)) (p ++ j) ∙ rw (equal-append_left p k j)

module _ ⦃maps : XsyncMap⦄ ⦃json : Json⦄ where
  open maps use {
    load, store, delete, compute, load-store, load-delete, compute_keep, compute_remove,
  }
  open json use {GoType, Value, marshal, unmarshal}

  -- What holds of every value of a map holds after a store, or a deletion.
  pub values-store :
      {V : Type 0} (P : Bytes → V → Type 0) (m : maps.Map V) (key : Bytes) (v : V)
      → ((j : Bytes) (w : V) → load m j ≡ some w → P j w)
      → P key v
      → (j : Bytes) (w : V) → load (store m key v) j ≡ some w
      → P j w
  values-store P m key v all here j w there = elim (Bool-cases (equal key j)) [
    | inl same ↦
        subst₂ P ((equal_iff key j).0 same) (cc (rw (load-store m key v j, same) at there)) here
    | inr other ↦ all j w (rw (load-store m key v j, other) at there)
  ]

  pub values-delete :
      {V : Type 0} (P : Bytes → V → Type 0) (m : maps.Map V) (key : Bytes)
      → ((j : Bytes) (w : V) → load m j ≡ some w → P j w)
      → (j : Bytes) (w : V) → load (delete m key) j ≡ some w
      → P j w
  values-delete P m key all j w there = elim (Bool-cases (equal key j)) [
    | inl same ↦ cc (rw (load-delete m key j, same) at there)
    | inr other ↦ all j w (rw (load-delete m key j, other) at there)
  ]

  -- What a map reads from a raw value.
  abbrev pub decoded : GoType → Option Bytes → Option Value
  decoded t none = none
  decoded t (some b) = unmarshal t b

  -- The record that sets `key` to `v` can be written and read back, and gives `v` again.
  pub record Loggable (t : GoType) (prefix key : Bytes) (v : Value) : Type 0 where
    pub line : Bytes
    pub json_of : marshal v ≡ some line
    pub reads_back : unmarshal t line ≡ some v
    pub valid : validate_key (prefix ++ key) ≡ none
    pub fits : IsReadable buffer_size (Entry.set (prefix ++ key) line)

  abbrev pub InLog : PersistMap → List Entry → Bytes → Type 0
  InLog pm es key =
      load pm.data_map key ≡ decoded pm.value_type (replay no_contents es (pm.prefix ++ key))

  abbrev pub InLogs : PersistMap → List Entry → Type 0
  InLogs pm es = (key : Bytes) → load pm.dirty key ≡ none → InLog pm es key

  -- The store is open on a readable log. The log holds what the map holds for every key that is
  -- not dirty; the records that the dirty keys and the values call for can be read back.
  pub record Durable (pm : PersistMap) (s : Store) : Type 0 where
    pub entries : List Entry
    pub log : HasLog s entries
    pub in_log : InLogs pm entries
    pub values :
        (key : Bytes) (v : Value)
        → load pm.data_map key ≡ some v
        → Loggable pm.value_type pm.prefix key v
    pub dirty_fits :
        (key : Bytes)
        → load pm.dirty key ≢ none
        → IsReadable buffer_size (Entry.delete (pm.prefix ++ key))
