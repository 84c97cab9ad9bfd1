-- ===== src/PersistMap/History/Follows.antt =====
-- Any sequence of calls keeps a map durable, with the values that the calls have noted.
use mathlib.Core.Path.{subst, subst₂}
use go_persist.Base.{
  ◌≡◌, ◌≢◌, refl, sym, ap, ◌∙◌, true, Option, none, some, List, [], ◌∷◌, Bytes, All, append-nil,
  equal, equal_iff, if◌then◌else◌, Bool-cases, inl, inr,
}
use go_persist.Env.XsyncMap.{XsyncMap}
use go_persist.Env.Json.{Json}
use go_persist.PersistMap as Methods
use go_persist.PersistMap.Update.{
  Update, ActionType, action_none, action_set, action_delete, action_cancel, given, well_typed,
}
use go_persist.PersistMap.Update as Updates
use go_persist.PersistMap.Update.Actions.{chosen, update-set, update-delete_now, update_cancelled}
use go_persist.PersistMap.Durable.{Durable, InLogs, Loggable}
use go_persist.PersistMap.Durable.Calls.{set-Grown, set_lem, delete_now-Grown, delete_now_lem}
use go_persist.PersistMap.Durable.Grown.{Grown, Grown-refl, Grown-trans}
use go_persist.PersistMap.Durable.Async.{set_async-Grown, delete_async-Grown, delete_async_lem}
use go_persist.PersistMap.Durable.Sync.{sync-Synced}
use go_persist.Record.Entry.{Entry}
use go_persist.Wal.Writes.{nothing}
use go_persist.State.{PersistMap, Store}
use go_persist.PersistMap.History.{
  Call, act, run, View, shown_to, chosen_value, updated, note, notes, Deletable, Chosen, Admissible,
  set, set_async, delete, delete_async, update, sync,
}

module _ ⦃maps : XsyncMap⦄ ⦃json : Json⦄ where
  open maps use {load, store, load-store, load-delete}
  open json use {GoType, Value, zero_value}

  -- The map is durable, the log has grown from `es` by entries of the map, and the map holds `m`.
  pub record Follows (es : List Entry) (pm₀ : PersistMap) (s₀ : Store) (m : View)
      (p : PersistMap × Store) : Type 0 where
    pub grown : Grown es pm₀ s₀ p.0 p.1
    pub holds : (j : Bytes) → load p.0.data_map j ≡ m j

  module _ {pm : PersistMap} {s : Store} (d : Durable pm s) (m : View)
      (holds : (j : Bytes) → load pm.data_map j ≡ m j) where
    if_same :
        (a : Option Value) (k j : Bytes)
        → (if equal k j then a else load pm.data_map j) ≡ (if equal k j then a else m j)
    if_same a k j = rw (holds j)

    if_self : (k j : Bytes) → (if equal k j then m k else m j) ≡ m j
    if_self k j = elim (Bool-cases (equal k j)) [
      | inl same ↦ rw same (ap m ((equal_iff k j).0 same))
      | inr other ↦ rw other
    ]

    Grown-same_data :
        (data' : maps.Map Value) {s' : Store}
        → ((j : Bytes) → load data' j ≡ load pm.data_map j)
        → s' ≡ s
        → Grown d.entries pm s (record pm { data_map = data' }) s'
    Grown-same_data data' same same_store =
        subst (λ x. Grown d.entries pm s (record pm { data_map = data' }) x) (sym same_store)
          (record {
            typed = refl;
            prefixed = refl;
            at_path = refl;
            durable = record {
              entries = d.entries;
              log = d.log;
              in_log = λ j clean. same j ∙ d.in_log j clean;
              values = λ j v there. d.values j v (sym (same j) ∙ there);
              dirty_fits = d.dirty_fits;
            };
            added = [];
            extends = sym (append-nil d.entries);
            own = tt;
            writes = nothing;
            logs = λ l held.
                subst (InLogs (record pm { data_map = data' })) (sym (append-nil l))
                  (λ j clean. same j ∙ held j clean);
          })

    well_typed_lem :
        (o : Option Value) (k : Bytes) → load pm.data_map k ≡ o → well_typed pm o ≡ true
    well_typed_lem none k there = refl
    well_typed_lem (some v) k there =
        let l = d.values k v there in json.unmarshal-has_type pm.value_type l.line v l.reads_back

    given-shown_to : (o : Option Value) → given pm o ≡ shown_to pm.value_type o
    unfolding given
    given-shown_to none = refl
    given-shown_to (some v) = refl

    module _ (k : Bytes) (f : Update → Update)
        (fits : (u : Update) → Chosen pm.value_type pm.prefix k (f u).action (f u).value) where
      typed : well_typed pm (load pm.data_map k) ≡ true
      typed = well_typed_lem (load pm.data_map k) k refl

      abbrev picked : Update
      picked = chosen k f pm s

      updated-picked : updated pm.value_type f (m k) ≡ chosen_value (m k) picked.action picked.value
      updated-picked =
          ap (λ (u : Update). let a = f u in chosen_value (m k) a.action a.value)
            (ap (shown_to pm.value_type) (sym (holds k))
              ∙ sym (given-shown_to (load pm.data_map k)))

      note_picked :
          (o : Option Value) (j : Bytes)
          → chosen_value (m k) picked.action picked.value ≡ o
          → (if equal k j then o else m j) ≡ note pm.value_type (update k f) m j
      note_picked o j e =
          ap (λ (x : Option Value). if equal k j then x else m j) (sym (updated-picked ∙ e))

      update-Follows_unchanged :
          picked.action ≢ action_set
          → picked.action ≢ action_delete
          → chosen_value (m k) picked.action picked.value ≡ m k
          → Follows d.entries pm s
              (note pm.value_type (update k f) m)
              ((Updates.update k f pm s).1, (Updates.update k f pm s).2)
      unfolding Updates.update
      update-Follows_unchanged no_set no_delete e =
          let (_, same_store, same) = update_cancelled k f pm s typed no_set no_delete in
          record {
            grown = Grown-same_data (Updates.update k f pm s).1.data_map same same_store;
            holds = λ j. same j ∙ holds j ∙ sym (if_self k j) ∙ note_picked (m k) j e;
          }

      update-Follows :
          (a : ActionType)
          → picked.action ≡ a
          → Follows d.entries pm s
              (note pm.value_type (update k f) m)
              ((Updates.update k f pm s).1, (Updates.update k f pm s).2)
      update-Follows action_set e =
          let l : Loggable pm.value_type pm.prefix k picked.value =
            subst (λ b. Chosen pm.value_type pm.prefix k b picked.value) e
              (fits (given pm (load pm.data_map k))) in
          rw (update-set k f pm s typed e) (record {
            grown = set-Grown d k picked.value l;
            holds = λ j. rw (set_lem d k picked.value l) (
                load-store pm.data_map k picked.value j
                ∙ if_same (some picked.value) k j
                ∙ note_picked (some picked.value) j
                    (ap (λ b. chosen_value (m k) b picked.value) e));
          })
      update-Follows action_delete e =
          let l : Deletable pm.prefix k =
            subst (λ b. Chosen pm.value_type pm.prefix k b picked.value) e
              (fits (given pm (load pm.data_map k))) in
          rw (update-delete_now k f pm s typed e) (record {
            grown = delete_now-Grown d k l;
            holds = λ j. rw (delete_now_lem d k) (
                load-delete pm.data_map k j
                ∙ if_same none k j
                ∙ note_picked none j (ap (λ b. chosen_value (m k) b picked.value) e));
          })
      update-Follows action_none e =
          update-Follows_unchanged (λ p. cc) (λ p. cc)
            (ap (λ b. chosen_value (m k) b picked.value) e)
      update-Follows action_cancel e =
          update-Follows_unchanged (λ p. cc) (λ p. cc)
            (ap (λ b. chosen_value (m k) b picked.value) e)

    act-Follows :
        (c : Call)
        → Admissible pm.value_type pm.prefix c
        → Follows d.entries pm s (note pm.value_type c m) (act c (pm, s))
    act-Follows (set k v) l = record {
      grown = set-Grown d k v l;
      holds = λ j. rw (set_lem d k v l) (load-store pm.data_map k v j ∙ if_same (some v) k j);
    }
    act-Follows (set_async k v) l = record {
      grown = set_async-Grown d k v l;
      holds =
          λ j. unfold Methods.set_async in (load-store pm.data_map k v j ∙ if_same (some v) k j);
    }
    act-Follows (delete k) fits = record {
      grown = delete_now-Grown d k fits;
      holds = λ j. rw (delete_now_lem d k) (load-delete pm.data_map k j ∙ if_same none k j);
    }
    act-Follows (delete_async k) fits = record {
      grown = delete_async-Grown d k fits;
      holds = λ j. rw (delete_async_lem d k) (load-delete pm.data_map k j ∙ if_same none k j);
    }
    act-Follows (update k f) ok = update-Follows k f ok (picked k f ok).action refl
    act-Follows sync ok =
        let synced = sync-Synced d in
        record { grown = synced.grown; holds = λ j. ap (λ x. load x j) synced.same_data ∙ holds j }

  -- From a durable map that holds `m` (its store is open on a log whose records can all be read
  -- back and which holds what the map holds for every key that is not dirty; every value has a
  -- valid key and a JSON text that decodes to it and whose record can be read back, and the delete
  -- record of every dirty key can be read back; and no call of the operating system fails), after
  -- any sequence of `Set`, `SetAsync`, `Delete`, `DeleteAsync`, `Update` and `Sync` whose
  -- arguments are admissible (every value that is set, or chosen by an updater for whatever it may
  -- be shown, has a valid key and a JSON text that decodes to it, and every record that is called
  -- for can be read back): the map is durable and holds what the calls have noted, and the log has
  -- only grown, by entries of this map.
  pub run-Follows :
      (cs : List Call) {pm : PersistMap} {s : Store} (d : Durable pm s) (m : View)
      → ((j : Bytes) → load pm.data_map j ≡ m j)
      → All (Admissible pm.value_type pm.prefix) cs
      → Follows d.entries pm s (notes pm.value_type cs m) (run cs (pm, s))
  unfolding run notes
  run-Follows [] d m holds ok = record { grown = Grown-refl d; holds = holds }
  run-Follows (c ∷ cs) {pm} {s} d m holds ok =
      let f = act-Follows d m holds c ok.0 in
      let rest =
        run-Follows cs {pm = (act c (pm, s)).0} {s = (act c (pm, s)).1} f.grown.durable
          (note pm.value_type c m) f.holds
          (subst₂ (λ t p. All (Admissible t p) cs) (sym f.grown.typed) (sym f.grown.prefixed)
            ok.1) in
      record {
        grown = Grown-trans f.grown rest.grown;
        holds =
            subst
              (λ t.
                (j : Bytes)
                → load (run cs (act c (pm, s))).0.data_map j
                  ≡ notes t cs (note pm.value_type c m) j)
              f.grown.typed rest.holds;
      }
