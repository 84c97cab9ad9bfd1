-- ===== src/State.antt =====
-- The state of a store and of its maps (wal.go, map.go).
use go_persist.Base.{ℕ, Bool, List, Bytes}
use go_persist.Env.XsyncMap.{XsyncMap}
use go_persist.Env.Json.{Json}
use go_persist.Env.Os.{Os, Handle}
use go_persist.Result.{Error}

module _ ⦃maps : XsyncMap⦄ ⦃json : Json⦄ where
  open maps use {Map}
  open json use {GoType, Value}

  -- The type argument T is the field `value_type`.
  pub record PersistMap : Type 0 where
    pub value_type : GoType
    pub data_map : Map Value
    pub prefix : Bytes
    pub dirty : Map (Unit {0})

  pub record Store : Type 0 where
    pub os : Os
    pub f : Handle
    pub path : Bytes
    pub sync_running : Bool
    pub persist_maps : Map PersistMap
    pub closed_maps : Map (Unit {0})
    pub orphan_records : Map Value
    pub sync_interval : ℕ
    pub shrinking : Bool
    pub pending_records : List Bytes
    pub auto_shrink : Bool
    pub total_wal_records : ℕ
    pub loaded : Bool
    pub handled : List Error
