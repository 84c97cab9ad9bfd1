-- ===== src/Orphans.antt =====
-- `Store.Set` and `Get` (wal.go): the values that belong to no map.
pub mod Values
use go_persist.Base.{Option, none, some, Bytes, if◌then◌else◌}
use go_persist.Env.XsyncMap.{XsyncMap}
use go_persist.Env.Json.{Json}
use go_persist.Result.{not_loaded, key_not_found, not_convertible, json_failed, Result, ok, err}
use go_persist.State.{Store}
use go_persist.Wal.{write}

module _ ⦃maps : XsyncMap⦄ ⦃json : Json⦄ where
  open maps use {load, store}
  open json use {GoType, Value, has_type, as_string, unmarshal}

  abbrev remember : Bytes → Value → Result (Unit {0}) × Store → Result (Unit {0}) × Store
  remember key value (ok u, s) =
      (ok tt, record s { orphan_records = store s.orphan_records key value })
  remember key value (res, s) = (res, s)

  -- `Set`
  unfoldable pub set_value : Bytes → Value → Store → Result (Unit {0}) × Store
  set_value key value s = remember key value (write key value s)

  abbrev cache_decoded : Bytes → Option Value → Store → Result Value × Store
  cache_decoded key none s = (err json_failed, s)
  cache_decoded key (some v) s = (ok v, record s { orphan_records = store s.orphan_records key v })

  abbrev decode_text : GoType → Bytes → Option Bytes → Store → Result Value × Store
  decode_text t key none s = (err not_convertible, s)
  decode_text t key (some text) s = cache_decoded key (unmarshal t text) s

  abbrev get_found : GoType → Bytes → Option Value → Store → Result Value × Store
  get_found t key none s = (err key_not_found, s)
  get_found t key (some v) s = if has_type t v then (ok v, s) else decode_text t key (as_string v) s

  -- `Get`, at the type `t`.
  unfoldable pub get_value : GoType → Bytes → Store → Result Value × Store
  get_value t key s =
      if s.loaded then get_found t key (load s.orphan_records key) s else (err not_loaded, s)
