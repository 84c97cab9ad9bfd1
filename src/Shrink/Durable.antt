-- ===== src/Shrink/Durable.antt =====
-- A `Shrink` during which no other goroutine runs keeps the contents of a map in the log.
use mathlib.Core.Path.{subst}
use go_persist.Base.{
  ◌≡◌, refl, sym, ap, ◌∙◌, false, Option, none, some, List, [], ◌∷◌, ◌++◌, Bytes, All, append_assoc,
  equal, equal_iff, Bool-cases, inl, inr,
}
use go_persist.Env.XsyncMap.{XsyncMap, lookup, Distinct}
use go_persist.Env.Json.{Json}
use go_persist.Env.Os.{at}
use go_persist.Loading.Routing.{NoColon, full_key, route-full_key}
use go_persist.Loading.{route}
use go_persist.PersistMap.Durable.{Durable, Loggable, InLog, no_contents, decoded}
use go_persist.Record.Entry.{Entry, IsReadable}
use go_persist.Record.{buffer_size}
use go_persist.Result.{ok}
use go_persist.Shrink.Alone.{idle, compacted, shrink-Swapped}
use go_persist.Shrink.Steps.{entries_of, orphan_text, HaveText}
use go_persist.Shrink.MapPass.{map_entries, MapsHaveText}
use go_persist.Shrink.{shrink}
use go_persist.State.{PersistMap, Store}
use go_persist.Wal.Effects.{Contents, replay, replay-append}
use go_persist.Shrink.Contents.{All-lookup, text_or, replay-entries_of, replay-entries_of_elsewhere}

module _ ⦃maps : XsyncMap⦄ ⦃json : Json⦄ where
  open maps use {load, range, lookup-range, range-Distinct}
  open json use {Value, marshal, unmarshal}

  -- The prefix of a map is its name and a colon, and its name holds no colon.
  abbrev pub WellNamed : Bytes × PersistMap → Type 0
  WellNamed (name, pm) = (pm.prefix ≡ name ++ b':' ∷ []) × NoColon name

  misses :
      (other name key j : Bytes) (p : Bytes)
      → p ≡ other ++ b':' ∷ []
      → NoColon other
      → NoColon name
      → equal other name ≡ false
      → equal (p ++ j) (full_key name key) ≡ false
  misses other name key j p prefix plain plain' differs =
      elim (Bool-cases (equal (p ++ j) (full_key name key))) [
        | inr no_match ↦ no_match
        | inl same ↦
            let keys : full_key other j ≡ full_key name key =
              sym (append_assoc other (b':' ∷ []) j)
              ∙ ap (λ (b : Bytes). b ++ j) (sym prefix)
              ∙ (equal_iff (p ++ j) (full_key name key)).0 same in
            let names : other ≡ name =
              ap (λ (r : Bytes × Bytes). r.0) (sym (route-full_key other j plain))
              ∙ ap (λ (b : Bytes). (route b).0) keys
              ∙ ap (λ (r : Bytes × Bytes). r.0) (route-full_key name key plain') in
            cc ((equal_iff other name).1 names)
      ]

  -- What the entries of all maps say of a key of the map `name`.
  abbrev map_text : Bytes → Option PersistMap → Option Bytes → Option Bytes
  map_text key none old = old
  map_text key (some pm) old = text_or marshal (load pm.data_map key) old

  module _ (name key : Bytes) (plain : NoColon name) where
    replay-map_entries :
        (l : List (Bytes × PersistMap)) (m : Contents)
        → MapsHaveText l
        → Distinct l
        → All WellNamed l
        → replay m (map_entries l) (full_key name key)
          ≡ map_text key (lookup name l) (m (full_key name key))
    unfolding map_entries lookup
    replay-map_entries [] m texts once named = unfold replay in refl
    replay-map_entries ((other, pm) ∷ l) m (text, texts) (first, once)
          ((prefix, plain_other), named) =
        ap (λ (c : Contents). c (full_key name key)) (replay-append m _ (map_entries l))
        ∙ replay-map_entries l _ texts once named
        ∙ elim (Bool-cases (equal other name)) [
          | inl same ↦
              let it = (equal_iff other name).0 same in
              let full : pm.prefix ++ key ≡ full_key name key =
                ap (λ (b : Bytes). b ++ key) (prefix ∙ ap (λ (b : Bytes). b ++ b':' ∷ []) it)
                ∙ append_assoc name (b':' ∷ []) key in
              rw (same, subst (λ (n : Bytes). lookup n l ≡ none) it first)
                (subst
                  (λ (K : Bytes).
                    replay m (entries_of marshal pm.prefix (range pm.data_map)) K
                    ≡ text_or marshal (load pm.data_map key) (m K))
                  full
                  (replay-entries_of marshal pm.prefix key (range pm.data_map) m text
                      (range-Distinct pm.data_map)
                    ∙ ap (λ (o : Option Value). text_or marshal o (m (pm.prefix ++ key)))
                        (lookup-range pm.data_map key)))
          | inr other_name ↦ rw other_name (
              ap (map_text key (lookup name l)) (
                replay-entries_of_elsewhere marshal pm.prefix (full_key name key)
                  (range pm.data_map) m text
                  (λ j. misses other name key j pm.prefix prefix plain_other plain other_name)))
        ]

  -- What the pass over the maps says of a key of the registered map `pm`.
  pub registered-text :
      {name : Bytes} {pm : PersistMap} (s : Store)
      → load s.persist_maps name ≡ some pm
      → ((n : Bytes) (other : PersistMap)
          → load s.persist_maps n ≡ some other
          → WellNamed (n, other))
      → MapsHaveText (range s.persist_maps)
      → (key : Bytes) (m : Contents)
      → replay m (map_entries (range s.persist_maps)) (full_key name key)
        ≡ text_or marshal (load pm.data_map key) (m (full_key name key))
  registered-text {name} {pm} s registered named texts key m =
      replay-map_entries name key (named name pm registered).1 (range s.persist_maps) m texts
        (range-Distinct s.persist_maps)
        (All-lookup WellNamed (range s.persist_maps) (range-Distinct s.persist_maps)
          (λ n other there. named n other (sym (lookup-range s.persist_maps n) ∙ there)))
      ∙ ap (λ (o : Option PersistMap). map_text key o (m (full_key name key)))
          (lookup-range s.persist_maps name ∙ registered)

  -- The pass over the orphans says nothing of a key that no orphan has.
  pub orphans-text :
      (s : Store) (key : Bytes)
      → HaveText orphan_text (range s.orphan_records)
      → load s.orphan_records key ≡ none
      → replay no_contents (entries_of orphan_text [] (range s.orphan_records)) key ≡ none
  orphans-text s key texts gone =
      replay-entries_of orphan_text [] key (range s.orphan_records) no_contents texts
        (range-Distinct s.orphan_records)
      ∙ ap (λ (o : Option Value). text_or orphan_text o none)
          (lookup-range s.orphan_records key ∙ gone)

  -- A map reads its values back from their texts.
  pub decoded-text :
      (pm : PersistMap)
      → ((key : Bytes) (v : Value)
          → load pm.data_map key ≡ some v
          → Loggable pm.value_type pm.prefix key v)
      → (key : Bytes) (o : Option Value) → load pm.data_map key ≡ o
      → o ≡ decoded pm.value_type (text_or marshal o none)
  decoded-text pm values key none there = refl
  decoded-text pm values key (some v) there =
      let l = values key v there in sym (ap (decoded pm.value_type) l.json_of ∙ l.reads_back)

  -- The whole key of a key of a map.
  pub full_key-prefix :
      (name : Bytes) (pm : PersistMap) (key : Bytes)
      → WellNamed (name, pm)
      → full_key name key ≡ pm.prefix ++ key
  full_key-prefix name pm key named =
      sym (append_assoc name (b':' ∷ []) key) ∙ ap (λ (p : Bytes). p ++ key) (sym named.0)

  -- The store of a durable map `pm`, which is registered as `name`, before a `Shrink`: every registered
  -- map stands under its own name, no orphan has a key of the map, and every value has a JSON text
  -- that a log can hold.
  pub record Shrinkable (name : Bytes) (pm : PersistMap) (s : Store) : Type 0 where
    pub durable : Durable pm s
    pub registered : load s.persist_maps name ≡ some pm
    pub at_rest : s.shrinking ≡ false
    pub named :
        (n : Bytes) (other : PersistMap) → load s.persist_maps n ≡ some other → WellNamed (n, other)
    pub no_orphan : (key : Bytes) → load s.orphan_records (full_key name key) ≡ none
    pub texts : HaveText orphan_text (range s.orphan_records)
    pub map_texts : MapsHaveText (range s.persist_maps)
    pub readable : All (IsReadable buffer_size) (compacted s)

  module _ {name : Bytes} {pm : PersistMap} {s : Store} (h : Shrinkable name pm s) where
    own_name : WellNamed (name, pm)
    own_name = h.named name pm h.registered

    compacted_text :
        (key : Bytes)
        → replay no_contents (compacted s) (full_key name key)
          ≡ text_or marshal (load pm.data_map key) none
    compacted_text key =
        let orphans : List Entry = entries_of orphan_text [] (range s.orphan_records) in
        ap (λ (c : Contents). c (full_key name key))
          (replay-append no_contents orphans (map_entries (range s.persist_maps)))
        ∙ registered-text s h.registered h.named h.map_texts key (replay no_contents orphans)
        ∙ ap (λ (o : Option Bytes). text_or marshal (load pm.data_map key) o)
            (orphans-text s (full_key name key) h.texts (h.no_orphan key))

    -- The log of a store whose map holds in memory what the log says of every key, dirty or not.
    pub record Caught (s' : Store) : Type 0 where
      pub durable : Durable pm s'
      pub whole : durable.entries ≡ compacted s
      pub in_log : (key : Bytes) → InLog pm (compacted s) key

    -- A `Shrink` of the store of a durable map (its store is open on a log whose records can all
    -- be read back and which holds what the map holds for every key that is not dirty; every value
    -- has a valid key and a JSON text that decodes to it and whose record can be read back, and
    -- the delete record of every dirty key can be read back; and no call of the operating system
    -- fails), while no other goroutine runs. No Shrink is running at the start; every registered
    -- map has its name and a colon as its prefix, and no registered name holds a colon; no orphan
    -- has a key of the map; every orphan and every value of a registered map has a text whose
    -- record can be read back. Then `Shrink` returns nil, and the map is durable. The new log
    -- holds the entries of the compacted store, and says of every key of the map, dirty or not,
    -- what the map holds in memory.
    pub shrink-Caught : ((shrink idle s).0 ≡ ok tt) × Caught (shrink idle s).1
    shrink-Caught =
        let (success, swapped) =
          shrink-Swapped s h.durable.log.is_loaded h.at_rest h.durable.log.no_faults h.texts
            h.map_texts in
        let in_log : (key : Bytes) → InLog pm (compacted s) key = λ key.
          decoded-text pm h.durable.values key (load pm.data_map key) refl
          ∙ ap (decoded pm.value_type) (
              sym (compacted_text key)
              ∙ ap (λ (k : Bytes). replay no_contents (compacted s) k)
                  (full_key-prefix name pm key own_name)) in
        let k = swapped.kept in
        (
          success,
          record {
            durable = record {
              entries = compacted s;
              log = record {
                is_loaded = ap (λ (x : Store). x.loaded) k ∙ h.durable.log.is_loaded;
                handle = ap (λ (x : Store). x.f) k ∙ ap at (sym (ap (λ (x : Store). x.path) k));
                no_faults = swapped.quiet;
                synced = _;
                stands =
                    ap (λ (p : Bytes). (shrink idle s).1.os.files p) (ap (λ (x : Store). x.path) k)
                    ∙ swapped.there;
                readable = h.readable;
              };
              in_log = λ key clean. in_log key;
              values = h.durable.values;
              dirty_fits = h.durable.dirty_fits;
            };
            whole = refl;
            in_log = in_log;
          },
        )
