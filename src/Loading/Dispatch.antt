-- ===== src/Loading/Dispatch.antt =====
-- One record of the loading loop, as seen from one registered map.
use mathlib.Core.Option
use go_persist.Base.{
  ◌≡◌, refl, sym, ap, ◌∙◌, inl, inr, true, false, Option, none, some, [], ◌∷◌, ◌++◌, Bytes, equal,
  equal_iff, Bool-cases, Option-cases, if◌then◌else◌,
}
use go_persist.Env.XsyncMap.{XsyncMap}
use go_persist.Env.Json.{Json}
use go_persist.Loading.Routing.{NoColon, full_key, Separates, equal-full_key}
use go_persist.Loading.{route, dispatch}
use go_persist.PersistMap.{process_record}
use go_persist.PersistMap.Durable.{decoded}
use go_persist.Record.Entry.{Entry, entry_record, entry_key, set, delete}
use go_persist.Result.{ok}
use go_persist.State.{PersistMap, Store}
use go_persist.Wal.Effects.{Contents, apply}

module _ ⦃maps : XsyncMap⦄ ⦃json : Json⦄ where
  open maps use {load, store, load-store, load-delete}
  open json use {GoType, Value, unmarshal, string_value}

  -- The type of the map that is registered under each name.
  abbrev pub types_of : Store → Bytes → Option GoType
  types_of s name = Option.map (λ (pm : PersistMap). pm.value_type) (load s.persist_maps name)

  -- Every value that goes to a registered map can be read at its type.
  abbrev pub Reads : Option GoType → Bytes → Type 0
  Reads none v = Unit
  Reads (some t) v = (w : Value) × (unmarshal t v ≡ some w)

  abbrev pub Decodes : (Bytes → Option GoType) → Entry → Type 0
  Decodes types (set k v) = Reads (types (route k).0) v
  Decodes types (delete k) = Unit

  -- The map `name` holds what is decoded from the contents `m`, and has no dirty key.
  pub record Tracks (name : Bytes) (t : GoType) (m : Contents) (s : Store) : Type 0 where
    pub pm : PersistMap
    pub registered : load s.persist_maps name ≡ some pm
    pub typed : pm.value_type ≡ t
    pub prefixed : pm.prefix ≡ name ++ b':' ∷ []
    pub clean : (key : Bytes) → load pm.dirty key ≡ none
    pub holds : (key : Bytes) → load pm.data_map key ≡ decoded t (m (full_key name key))

  -- Nothing but the registered maps and the orphans has changed.
  abbrev pub KeepsRest : Store → Store → Type 0
  KeepsRest s s' =
      s' ≡ record s { persist_maps = s'.persist_maps; orphan_records = s'.orphan_records }

  pub record Loaded (name : Bytes) (t : GoType) (m : Contents) (s s' : Store) : Type 0 where
    pub tracks : Tracks name t m s'
    pub same_types : (n : Bytes) → types_of s' n ≡ types_of s n
    pub keeps : KeepsRest s s'

  -- What an entry leaves at its key.
  abbrev pub entry_result : Entry → Option Bytes
  entry_result (set k v) = some v
  entry_result (delete k) = none

  apply_lem :
      (e : Entry) (m : Contents) (j : Bytes)
      → apply e m j ≡ (if equal (entry_key e) j then entry_result e else m j)
  apply_lem (set k v) m j = refl
  apply_lem (delete k) m j = refl

  same_types_stored :
      (s : Store) (c : Bytes) (pm : PersistMap) (d : maps.Map Value)
      → load s.persist_maps c ≡ some pm
      → (n : Bytes)
      → types_of (record s { persist_maps = store s.persist_maps c (record pm { data_map = d }) }) n
        ≡ types_of s n
  same_types_stored s c pm d there n = elim (Bool-cases (equal c n)) [
    | inl same ↦ rw (
      load-store s.persist_maps c (record pm { data_map = d }) n,
      same,
      ← (equal_iff c n).0 same,
      there,
    )
    | inr other ↦ rw (load-store s.persist_maps c (record pm { data_map = d }) n, other)
  ]

  module _ {name : Bytes} {t : GoType} {m : Contents} {s : Store} (plain : NoColon name)
      (tr : Tracks name t m s) (e : Entry) (sep : Separates name (entry_key e)) where
    -- The record is for another map, or for none.
    Loaded-elsewhere :
        (s' : Store)
        → equal (route (entry_key e)).0 name ≡ false
        → load s'.persist_maps name ≡ load s.persist_maps name
        → ((n : Bytes) → types_of s' n ≡ types_of s n)
        → KeepsRest s s'
        → Loaded name t (apply e m) s s'
    Loaded-elsewhere s' other same_map same_types keeps = record {
      tracks = record {
        pm = tr.pm;
        registered = same_map ∙ tr.registered;
        typed = tr.typed;
        prefixed = tr.prefixed;
        clean = tr.clean;
        holds = λ key.
            tr.holds key
            ∙ ap (decoded t) (
                sym (
                  apply_lem e m (full_key name key)
                  ∙ rw (equal-full_key name (entry_key e) key plain sep, other)));
      };
      same_types = same_types;
      keeps = keeps;
    }

    same_pm :
        (pm : PersistMap)
        → load s.persist_maps (route (entry_key e)).0 ≡ some pm
        → equal (route (entry_key e)).0 name ≡ true
        → pm ≡ tr.pm
    same_pm pm there same =
        let c = (equal_iff (route (entry_key e)).0 name).0 same in
        let both = sym there ∙ ap (λ (n : Bytes). load s.persist_maps n) c ∙ tr.registered in
        cc both

    holds_here :
        (pm : PersistMap)
        → pm ≡ tr.pm
        → equal (route (entry_key e)).0 name ≡ true
        → (key : Bytes)
        → (if equal (route (entry_key e)).1 key
            then decoded pm.value_type (entry_result e)
            else load pm.data_map key)
          ≡ decoded t (apply e m (full_key name key))
    holds_here pm it same key =
        rw
          (apply_lem e m (full_key name key), equal-full_key name (entry_key e) key plain sep, same)
          (elim (Bool-cases (equal (route (entry_key e)).1 key)) [
            | inl here ↦ rw here (
                ap (λ (u : GoType). decoded u (entry_result e))
                  (ap (λ (p : PersistMap). p.value_type) it ∙ tr.typed))
            | inr there ↦ rw there (ap (λ (p : PersistMap). load p.data_map key) it ∙ tr.holds key)
          ])

    -- The record is for the registered map `pm`, which then has the data `d`.
    Loaded-registered :
        (pm : PersistMap) (d : maps.Map Value)
        → load s.persist_maps (route (entry_key e)).0 ≡ some pm
        → ((key : Bytes)
            → load d key ≡ (
                if equal (route (entry_key e)).1 key
                then decoded pm.value_type (entry_result e)
                else load pm.data_map key))
        → Loaded name t (apply e m) s (record s {
          persist_maps = store s.persist_maps (route (entry_key e)).0 (record pm { data_map = d });
        })
    Loaded-registered pm d there step = elim (Bool-cases (equal (route (entry_key e)).0 name)) [
      | inr other ↦
          Loaded-elsewhere _ other
            (rw (
              load-store s.persist_maps (route (entry_key e)).0 (record pm { data_map = d }) name,
              other,
            ))
            (same_types_stored s (route (entry_key e)).0 pm d there) refl
      | inl same ↦ record {
        tracks = record {
          pm = record pm { data_map = d };
          registered = rw (
            load-store s.persist_maps (route (entry_key e)).0 (record pm { data_map = d }) name,
            same,
          );
          typed = ap (λ (p : PersistMap). p.value_type) (same_pm pm there same) ∙ tr.typed;
          prefixed = ap (λ (p : PersistMap). p.prefix) (same_pm pm there same) ∙ tr.prefixed;
          clean = λ key.
              ap (λ (p : PersistMap). load p.dirty key) (same_pm pm there same) ∙ tr.clean key;
          holds = λ key. step key ∙ holds_here pm (same_pm pm there same) same key;
        };
        same_types = same_types_stored s (route (entry_key e)).0 pm d there;
        keeps = refl;
      }
    ]

    unregistered :
        load s.persist_maps (route (entry_key e)).0 ≡ none
        → equal (route (entry_key e)).0 name ≡ false
    unregistered gone = elim (Bool-cases (equal (route (entry_key e)).0 name)) [
      | inr other ↦ other
      | inl same ↦
          let c = (equal_iff (route (entry_key e)).0 name).0 same in
          let both = sym gone ∙ ap (λ (n : Bytes). load s.persist_maps n) c ∙ tr.registered in
          cc both
    ]

  -- One round of the loading loop, on an entry that the map that it goes to can decode, as seen
  -- from a registered map with no dirty key, which has its name and a colon as its prefix and
  -- holds what the contents of the log say. The name holds no colon, and is not empty unless the
  -- key of the entry holds a colon. The round succeeds, does to that map what the entry does to
  -- the contents of the log, and changes nothing but the maps and the orphans.
  pub dispatch-Loaded :
      {name : Bytes} {t : GoType} {m : Contents} {s : Store} (e : Entry)
      → NoColon name
      → Tracks name t m s
      → Separates name (entry_key e)
      → Decodes (types_of s) e
      → (s' : Store) × (dispatch (entry_record e) s ≡ (ok tt, s')) × Loaded name t (apply e m) s s'
  unfolding dispatch process_record
  dispatch-Loaded {name} {t} {m} {s} (set k v) plain tr sep reads =
      elim (Option-cases (load s.persist_maps (route k).0)) [
        | inl gone ↦ (
          record s { orphan_records = store s.orphan_records k (string_value v) },
          rw gone,
          Loaded-elsewhere plain tr (set k v) sep _ (unregistered plain tr (set k v) sep gone) refl
              (λ n. refl) refl,
        )
        | inr (pm, there) ↦
            let readable : Reads (some pm.value_type) v = rw there at reads in
            let (w, decodes) = readable in
            let d = store pm.data_map (route k).1 w in
            (
              record s {
                persist_maps = store s.persist_maps (route k).0 (record pm { data_map = d });
              },
              rw there (rw decodes),
              Loaded-registered plain tr (set k v) sep pm d there
                  (λ key. rw (load-store pm.data_map (route k).1 w key, decodes)),
            )
      ]
  dispatch-Loaded {name} {t} {m} {s} (delete k) plain tr sep reads =
      elim (Option-cases (load s.persist_maps (route k).0)) [
        | inl gone ↦ (
          record s { orphan_records = maps.delete s.orphan_records k },
          rw gone,
          Loaded-elsewhere plain tr (delete k) sep _ (unregistered plain tr (delete k) sep gone)
              refl (λ n. refl) refl,
        )
        | inr (pm, there) ↦
            let d = maps.delete pm.data_map (route k).1 in
            (
              record s {
                persist_maps = store s.persist_maps (route k).0 (record pm { data_map = d });
              },
              rw there,
              Loaded-registered plain tr (delete k) sep pm d there
                  (λ key. rw (load-delete pm.data_map (route k).1 key)),
            )
      ]
