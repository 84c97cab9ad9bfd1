-- ===== src/PersistMap/Update.antt =====
-- `Update`, `UpdateAsync`, `UpdateFSync` and `UpdateInMemory` (map.go). The caller's updater is a
-- function on what it is given; it returns, and does not call the store. The type T of a map is not an
-- interface type and the updater gives a value of it, so that the last assertion, `newValIface.(T)`,
-- always holds; it is left out.
pub mod Actions
use go_persist.Base.{Bool, true, false, Option, none, some, List, ◌++◌, Bytes, if◌then◌else◌}
use go_persist.Env.XsyncMap.{XsyncMap, Outcome, keep, remove}
use go_persist.Env.Json.{Json}
use go_persist.Result.{Result, ok, err, panic}
use go_persist.State.{PersistMap, Store}
use go_persist.Wal.{write, delete_key}
use go_persist.PersistMap.{report, sync_file, is_some}

pub data ActionType : Type 0 where
  action_none action_set action_delete action_cancel : ActionType

module _ ⦃maps : XsyncMap⦄ ⦃json : Json⦄ where
  open maps use {store, compute}
  open json use {Value, has_type, zero_value}

  pub record Update : Type 0 where
    pub value : Value
    pub exists : Bool
    pub action : ActionType

  -- The methods of `Update`.
  unfoldable pub choose_set : Value → Update → Update
  choose_set v u = record u { value = v; action = action_set }

  unfoldable pub choose_delete : Update → Update
  choose_delete u = record u { action = action_delete }

  unfoldable pub choose_cancel : Update → Update
  choose_cancel u = record u { action = action_cancel }

  -- What the updater is given.
  unfoldable pub given : PersistMap → Option Value → Update
  given pm none = record { value = zero_value pm.value_type; exists = false; action = action_set }
  given pm (some v) = record { value = v; exists = true; action = action_set }

  -- `oldValue.(T)` does not panic.
  abbrev pub well_typed : PersistMap → Option Value → Bool
  well_typed pm none = true
  well_typed pm (some v) = has_type pm.value_type v

  -- `return oldValue, !loaded`
  abbrev pub unchanged : Option Value → Outcome Value
  unchanged none = remove
  unchanged (some v) = keep v

  -- The flag says that the callback panicked.
  abbrev pub Callback : Type 0
  Callback = Outcome Value × Bool × Store

  abbrev pub act_async : ActionType → Value → Option Value → Store → Callback
  act_async action_delete v old s = (remove, false, s)
  act_async action_set v old s = (keep v, false, s)
  act_async _ v old s = (unchanged old, false, s)

  abbrev pub act : Bytes → ActionType → Value → Option Value → Store → Callback
  act key action_delete v old s = (remove, false, report (delete_key key s))
  act key action_set v old s = (keep v, false, report (write key v s))
  act key _ v old s = (unchanged old, false, s)

  abbrev pub act_in_memory : ActionType → Value → Option Value → Store → Callback
  act_in_memory action_set v old s = (keep v, false, s)
  act_in_memory _ v old s = (unchanged old, true, s)

  -- One callback for the three methods, which differ in how they act.
  abbrev pub update_callback :
      PersistMap
      → (Update → Update)
      → (ActionType → Value → Option Value → Store → Callback)
      → Option Value
      → Bool × Store
      → Outcome Value × (Bool × Store)
  update_callback pm updater acts old (_, s) =
      if well_typed pm old
      then (let u = updater (given pm old) in
          let (o, panicked, s') = acts u.action u.value old s in (o, (panicked, s')))
      else (unchanged old, (true, s))

  -- The value and whether it exists; the zero value where it does not.
  abbrev pub shown : PersistMap → Option Value → Value × Bool
  shown pm none = (zero_value pm.value_type, false)
  shown pm (some v) = (v, true)

  abbrev pub shown_or_panic : PersistMap → Option Value → Bool → Result (Value × Bool)
  shown_or_panic pm now panicked = if panicked then panic else ok (shown pm now)

  -- `Update`
  unfoldable pub update :
      Bytes → (Update → Update) → PersistMap → Store → Result (Value × Bool) × PersistMap × Store
  unfolding given
  update key updater pm s =
      let callback = update_callback pm updater (act (pm.prefix ++ key)) in
      let (m, now, c) = compute pm.data_map key callback (false, s) in
      (shown_or_panic pm now c.0, record pm { data_map = m }, c.1)

  -- `UpdateAsync`
  unfoldable pub update_async :
      Bytes → (Update → Update) → PersistMap → Store → Result (Value × Bool) × PersistMap × Store
  unfolding given
  update_async key updater pm s =
      let (m, now, c) = compute pm.data_map key (update_callback pm updater act_async) (false, s) in
      (shown_or_panic pm now c.0, record pm { data_map = m; dirty = store pm.dirty key tt }, c.1)

  -- `UpdateInMemory`
  unfoldable pub update_in_memory :
      Bytes → (Update → Update) → PersistMap → Store → Result (Value × Bool) × PersistMap × Store
  unfolding given
  update_in_memory key updater pm s =
      let (m, now, c) =
        compute pm.data_map key (update_callback pm updater act_in_memory) (false, s) in
      (shown_or_panic pm now c.0, record pm { data_map = m }, c.1)

  -- `UpdateFSync`: the error is that of the file's `Sync`.
  unfoldable pub update_fsync :
      Bytes
      → (Update → Update)
      → PersistMap
      → Store
      → Result (Value × Bool) × Result (Unit {0}) × PersistMap × Store
  unfolding update sync_file
  update_fsync key updater pm s =
      let (r, pm', s') = update key updater pm s in let (e, s'') = sync_file s' in (r, e, pm', s'')
