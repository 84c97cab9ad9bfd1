-- ===== src/PersistMap/History.antt =====
-- Sequences of calls of a map, against a function from keys to values.
pub mod Follows
pub mod Reopen
pub mod Disk
pub mod Sessions
use mathlib.Core.Path.{subst, subst₂}
use go_persist.Base.{
  ◌≡◌, ◌≢◌, refl, sym, ap, ◌∙◌, Bool, true, false, Option, none, some, List, [], ◌∷◌, ◌++◌, Bytes,
  All, All-append, append_assoc, append-nil, arith, equal, equal_iff, if◌then◌else◌, Bool-cases,
  inl, inr,
}
use go_persist.Env.XsyncMap.{XsyncMap}
use go_persist.Env.Json.{Json}
use go_persist.PersistMap as Methods
use go_persist.PersistMap.Update.{
  Update, ActionType, action_none, action_set, action_delete, action_cancel, given, well_typed,
}
use go_persist.PersistMap.Update as Updates
use go_persist.PersistMap.Update.Actions.{chosen, update-set, update-delete_now, update_cancelled}
use go_persist.PersistMap.Durable.{Durable, Loggable}
use go_persist.PersistMap.Durable.Calls.{set-Grown, set_lem, delete_now-Grown, delete_now_lem}
use go_persist.PersistMap.Durable.Grown.{Grown, Grown-refl, Grown-trans, Belongs}
use go_persist.PersistMap.Durable.Async.{set_async-Grown, delete_async-Grown, delete_async_lem}
use go_persist.PersistMap.Durable.Sync.{Synced, sync-Synced}
use go_persist.Record.Entry as Entry
use go_persist.Record.Entry.{Entry, IsReadable}
use go_persist.Record.{buffer_size}
use go_persist.State.{PersistMap, Store}

module _ ⦃maps : XsyncMap⦄ ⦃json : Json⦄ where
  open maps use {load, store, load-store, load-delete}
  open json use {GoType, Value, zero_value}

  pub data Call : Type 0 where
    set set_async : Bytes → Value → Call
    delete delete_async : Bytes → Call
    update : Bytes → (Update → Update) → Call
    sync : Call

  abbrev pub act : Call → PersistMap × Store → PersistMap × Store
  act (set k v) (pm, s) = Methods.set k v pm s
  act (set_async k v) (pm, s) = (Methods.set_async k v pm, s)
  act (delete k) (pm, s) = let (_, pm', s') = Methods.delete_now k pm s in (pm', s')
  act (delete_async k) (pm, s) = ((Methods.delete_async k pm).1, s)
  act (update k f) (pm, s) = let (_, pm', s') = Updates.update k f pm s in (pm', s')
  act sync (pm, s) = Methods.sync pm s

  unfoldable pub run : List Call → PersistMap × Store → PersistMap × Store
  run [] p = p
  run (c ∷ cs) p = run cs (act c p)

  -- What a map of type `t` is to its caller: the value of each key.
  abbrev pub View : Type 0
  View = Bytes → Option Value

  abbrev pub shown_to : GoType → Option Value → Update
  shown_to t none = record { value = zero_value t; exists = false; action = action_set }
  shown_to t (some v) = record { value = v; exists = true; action = action_set }

  abbrev pub chosen_value : Option Value → ActionType → Value → Option Value
  chosen_value old action_set v = some v
  chosen_value old action_delete v = none
  chosen_value old _ v = old

  abbrev pub updated : GoType → (Update → Update) → Option Value → Option Value
  updated t f old = let u = f (shown_to t old) in chosen_value old u.action u.value

  abbrev pub note : GoType → Call → View → View
  note t (set k v) m j = if equal k j then some v else m j
  note t (set_async k v) m j = if equal k j then some v else m j
  note t (delete k) m j = if equal k j then none else m j
  note t (delete_async k) m j = if equal k j then none else m j
  note t (update k f) m j = if equal k j then updated t f (m k) else m j
  note t sync m j = m j

  unfoldable pub notes : GoType → List Call → View → View
  notes t [] m = m
  notes t (c ∷ cs) m = notes t cs (note t c m)

  -- The record that a call writes can be read back. An updater is asked about all that it may be
  -- given.
  abbrev pub Deletable : Bytes → Bytes → Type 0
  Deletable p k = IsReadable buffer_size (Entry.delete (p ++ k))

  abbrev pub Chosen : GoType → Bytes → Bytes → ActionType → Value → Type 0
  Chosen t p k action_set v = Loggable t p k v
  Chosen t p k action_delete v = Deletable p k
  Chosen t p k _ v = Unit

  abbrev pub Admissible : GoType → Bytes → Call → Type 0
  Admissible t p (set k v) = Loggable t p k v
  Admissible t p (set_async k v) = Loggable t p k v
  Admissible t p (delete k) = Deletable p k
  Admissible t p (delete_async k) = Deletable p k
  Admissible t p (update k f) = (u : Update) → Chosen t p k (f u).action (f u).value
  Admissible t p sync = Unit
