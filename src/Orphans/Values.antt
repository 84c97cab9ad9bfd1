-- ===== src/Orphans/Values.antt =====
-- What `Get` returns after `Set` and `Store.Delete`.
use go_persist.Base.{
  ◌≡◌, refl, ◌∙◌, Bool, true, false, none, Bytes, Bool-cases, inl, inr, equal_refl,
}
use go_persist.Env.XsyncMap.{XsyncMap}
use go_persist.Env.Json.{Json}
use go_persist.Env.Os
use go_persist.Orphans.{set_value, get_value, remember}
use go_persist.Record.{delete_record}
use go_persist.Result.{key_not_found, not_loaded, Result, ok, err, panic}
use go_persist.State.{Store}
use go_persist.Wal.{write, delete_key, or_io_failed, count_record}
use go_persist.Wal.Outcomes.{write_loaded}

module _ ⦃maps : XsyncMap⦄ ⦃json : Json⦄ where
  open maps use {load, load-store, load-delete}
  open json use {GoType, Value, has_type}

  get_value-remember :
      (t : GoType) (key : Bytes) (v : Value) (x : Result (Unit {0}) × Store)
      → has_type t v ≡ true
      → ((x.0 ≡ ok tt) → x.1.loaded ≡ true)
      → (remember key v x).0 ≡ ok tt
      → get_value t key (remember key v x).1 ≡ (ok v, (remember key v x).1)
  unfolding get_value
  get_value-remember t key v (ok u, s) typed is_open h =
      simp (is_open refl, load-store s.orphan_records key v key, equal_refl key, typed)
  get_value-remember t key v (err e, s) typed is_open h = cc
  get_value-remember t key v (panic, s) typed is_open h = cc

  -- After a `Set` that returns nil, `Get` at the type of the value returns that value.
  pub get_value-set_value :
      (t : GoType) (key : Bytes) (v : Value) (s : Store)
      → has_type t v ≡ true
      → (set_value key v s).0 ≡ ok tt
      → get_value t key (set_value key v s).1 ≡ (ok v, (set_value key v s).1)
  unfolding set_value
  get_value-set_value t key v s typed success =
      get_value-remember t key v (write key v s) typed (write_loaded key v s) success

  get_value_gone :
      (t : GoType) (key : Bytes) (good : Bool) (done failed : Store)
      → done.loaded ≡ true
      → load done.orphan_records key ≡ none
      → (or_io_failed good done failed).0 ≡ ok tt
      → get_value t key (or_io_failed good done failed).1
        ≡ (err key_not_found, (or_io_failed good done failed).1)
  unfolding get_value
  get_value_gone t key true done failed is_open gone h = simp (is_open, gone)
  get_value_gone t key false done failed is_open gone h = cc

  delete_key_not_loaded :
      (key : Bytes) (s : Store) → s.loaded ≡ false → delete_key key s ≡ (err not_loaded, s)
  unfolding delete_key
  delete_key_not_loaded key s e = simp e

  delete_key_loaded :
      (key : Bytes) (s : Store)
      → s.loaded ≡ true
      → delete_key key s ≡ (
          let x : Bool × Os.Os = Os.write s.f (delete_record key) s.os in
          or_io_failed x.0
            (count_record
              (delete_record key)
              (record s { os = x.1; orphan_records = maps.delete s.orphan_records key }))
            (record s { os = x.1 }))
  unfolding delete_key
  delete_key_loaded key s e = simp e

  -- After a `Delete` of the store that returns nil, `Get` returns `ErrKeyNotFound` at every type.
  get_value-delete_key :
      (t : GoType) (key : Bytes) (s : Store)
      → (delete_key key s).0 ≡ ok tt
      → get_value t key (delete_key key s).1 ≡ (err key_not_found, (delete_key key s).1)
  get_value-delete_key t key s success = elim (Bool-cases s.loaded) [
    | inr e ↦ cc (rw (delete_key_not_loaded key s e) at success)
    | inl loaded ↦ rw (delete_key_loaded key s loaded) (
        get_value_gone t key _ _ _ loaded
          (load-delete s.orphan_records key key ∙ rw (equal_refl key))
          (rw (delete_key_loaded key s loaded) at success))
  ]
