-- ===== src/PersistMap/Reopen.antt =====
-- A durable map is what the next `Open` of its file loads.
use go_persist.Base.{
  ℕ, true, false, if◌then◌else◌, ◌≡◌, sym, ap, ◌∙◌, Option, none, some, [], ◌∷◌, ◌++◌, Bytes,
  append_assoc,
}
use go_persist.Env.XsyncMap.{XsyncMap}
use go_persist.Env.Json.{Json}
use go_persist.Loading.Recovery.{Openable, open_store-Opened}
use go_persist.Loading.{open_store}
use go_persist.PersistMap.Durable.{Durable}
use go_persist.PersistMap.{get, checked}
use go_persist.Result.{ok, panic}
use go_persist.State.{PersistMap, Store}

module _ ⦃maps : XsyncMap⦄ ⦃json : Json⦄ where
  open maps use {load}
  open json use {GoType, Value, zero_value, has_type}

  checked-same :
      (pm pm' : PersistMap) (o : Option Value)
      → pm'.value_type ≡ pm.value_type
      → checked pm' o ≡ checked pm o
  checked-same pm pm' none typed = ap (λ (t : GoType). ok (zero_value t, false)) typed
  checked-same pm pm' (some v) typed =
      ap (λ (t : GoType). if has_type t v then ok (v, true) else panic) typed

  get-same :
      (pm pm' : PersistMap) (key : Bytes)
      → pm'.value_type ≡ pm.value_type
      → load pm'.data_map key ≡ load pm.data_map key
      → get key pm' ≡ get key pm
  unfolding get
  get-same pm pm' key typed same = rw same (checked-same pm pm' (load pm.data_map key) typed)

  -- A map is durable (its store is open on a log whose records can all be read back and which
  -- holds what the map holds for every key that is not dirty; every value has a valid key and a
  -- JSON text that decodes to it and whose record can be read back, and the delete record of every
  -- dirty key can be read back; and no call of the operating system fails) and has no dirty key.
  -- Its prefix is its name and a colon; the name holds no colon, and is not empty unless every key
  -- of the log holds a colon. A second store that is not open, with an empty map of the same name,
  -- prefix and type and no dirty key, is opened on the file as it stands, where the registered
  -- maps can decode the entries that go to them and no call of the operating system fails: `Open`
  -- succeeds, and `Get` of the second map returns for every key what `Get` of the first one
  -- returns.
  pub get-reopen :
      (pm : PersistMap) (s s₀ : Store) (name : Bytes) (ahead : ℕ)
      → (d : Durable pm s) → ((key : Bytes) → load pm.dirty key ≡ none)
      → pm.prefix ≡ name ++ b':' ∷ []
      → Openable s.path d.entries name pm.value_type s₀
      → ((open_store ahead s.path s₀).0 ≡ ok tt)
        × ((pm' : PersistMap) × (load (open_store ahead s.path s₀).1.persist_maps name ≡ some pm')
            × ((key : Bytes) → get key pm' ≡ get key pm))
  get-reopen pm s s₀ name ahead d clean prefix h =
      let (success, opened) = open_store-Opened s.path d.entries s₀ h ahead in
      (
        success,
        (
          opened.tracks.pm,
          opened.tracks.registered,
          λ key. get-same pm opened.tracks.pm key opened.tracks.typed (
              opened.tracks.holds key
              ∙ sym
                  (d.in_log key (clean key) ∙ rw prefix (rw (append_assoc name (b':' ∷ []) key)))),
        ),
      )
