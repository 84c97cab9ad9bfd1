-- ===== src/PersistMap/Durable/Sync.antt =====
-- `Sync` logs what the dirty keys hold and clears their flags.
use mathlib.Core.Path.{subst}
use go_persist.Base.{
  ◌≡◌, ◌≢◌, refl, sym, ap, ◌∙◌, Bool, true, false, Option, none, some, List, [], ◌∷◌, ◌++◌, Bytes,
  equal, equal_iff, equal_refl, if◌then◌else◌, Bool-cases, Option-cases, inl, inr,
}
use go_persist.Env.XsyncMap.{XsyncMap, lookup, Distinct}
use go_persist.Env.Json.{Json}
use go_persist.Record.Entry.{Entry}
use go_persist.State.{PersistMap, Store}
use go_persist.Wal.Effects.{
  HasLog, HasLog-orphans, logged, logged-HasLog, write_lem, delete_key_lem,
}
use go_persist.Wal.Writes.{Writes, set-Writes, delete-Writes}
use go_persist.PersistMap.{sync_key, sync_keys, sync, flag_after, sync_callback}
use go_persist.PersistMap.Durable.{Durable, Loggable, InLog, InLogs, replay-set, replay-delete}
use go_persist.PersistMap.Durable.Grown.{Belongs, Grown, Grown-refl, Grown-trans}

if-none {ℓ} : {A : Type ℓ} (b : Bool) → if◌then◌else◌ {A = Option A} b none none ≡ none
if-none true = refl
if-none false = refl

module _ ⦃maps : XsyncMap⦄ ⦃json : Json⦄ where
  open maps use {
    load, store, delete, range, load-delete, compute_remove, lookup-range, range-Distinct,
  }
  open json use {Value}

  abbrev Unflagged : PersistMap → Bytes → PersistMap
  Unflagged pm key = record pm { dirty = delete pm.dirty key }

  module _ {pm : PersistMap} {s : Store} (d : Durable pm s) (key : Bytes) where
    -- An entry that brings `key` up to date in any log, and is about no other key.
    record Settles (e : Entry) : Type 0 where
      pub own : Belongs pm.value_type pm.prefix e
      pub here : (l : List Entry) → InLog pm (l ++ e ∷ []) key
      pub elsewhere :
          (l : List Entry) (j : Bytes)
          → equal key j ≡ false
          → InLog pm l j
          → InLog pm (l ++ e ∷ []) j

    unflag_logs :
        {e : Entry}
        → Settles e
        → (l : List Entry) → InLogs pm l
        → InLogs (Unflagged pm key) (l ++ e ∷ [])
    unflag_logs {e} settles l held j clean = elim (Bool-cases (equal key j)) [
      | inl same ↦ subst (InLog pm (l ++ e ∷ [])) ((equal_iff key j).0 same) (settles.here l)
      | inr other ↦
          settles.elsewhere l j other (held j (rw (load-delete pm.dirty key j, other) at clean))
    ]

    -- What stands between two states: the flag of `key`, and one entry that brings it up to date.
    unflag :
        {e : Entry} (s' : Store)
        → s'.path ≡ s.path
        → Settles e
        → HasLog s' (d.entries ++ e ∷ [])
        → Writes s (e ∷ []) s'
        → Grown d.entries pm s (Unflagged pm key) s'
    unflag {e} s' at_path settles log writes = record {
      typed = refl;
      prefixed = refl;
      at_path = at_path;
      added = e ∷ [];
      extends = refl;
      own = (settles.own, tt);
      writes = writes;
      logs = unflag_logs settles;
      durable = record {
        entries = d.entries ++ e ∷ [];
        log = log;
        in_log = unflag_logs settles d.entries d.in_log;
        values = d.values;
        dirty_fits = λ j dirty.
            d.dirty_fits j
              (λ clean. dirty (load-delete pm.dirty key j ∙ rw clean (if-none (equal key j))));
      };
    }

    delete-Settles : load pm.data_map key ≡ none → Settles (Entry.delete (pm.prefix ++ key))
    delete-Settles gone = record {
      own = (key, refl);
      here = λ l. rw (gone, replay-delete l pm.prefix key key, equal_refl key);
      elsewhere = λ l j other old. rw (replay-delete l pm.prefix key j, other) old;
    }

    set-Settles :
        {v : Value} (l : Loggable pm.value_type pm.prefix key v)
        → load pm.data_map key ≡ some v
        → Settles (Entry.set (pm.prefix ++ key) l.line)
    set-Settles {v} l there = record {
      own = ((key, refl), (v, l.reads_back));
      here = λ es.
          rw (there, replay-set es pm.prefix key l.line key, equal_refl key) (sym l.reads_back);
      elsewhere = λ es j other old. rw (replay-set es pm.prefix key l.line j, other) old;
    }

    sync_key-set :
        (v : Value)
        → load pm.data_map key ≡ some v
        → (l : Loggable pm.value_type pm.prefix key v)
        → sync_key key pm s ≡ (Unflagged pm key, logged (Entry.set (pm.prefix ++ key) l.line) s)
    unfolding sync_key
    sync_key-set v there l = rw (
        compute_remove pm.dirty key (sync_callback pm key) s
          {s' = logged (Entry.set (pm.prefix ++ key) l.line) s}
          (rw there (ap flag_after (write_lem d.log (pm.prefix ++ key) v l.valid l.json_of))))

    sync_key-delete_key :
        load pm.data_map key ≡ none
        → sync_key key pm s ≡ (
          Unflagged pm key,
          record (logged (Entry.delete (pm.prefix ++ key)) s) {
            orphan_records = delete s.orphan_records (pm.prefix ++ key);
          },
        )
    unfolding sync_key
    sync_key-delete_key gone = rw (
        compute_remove pm.dirty key (sync_callback pm key) s
          {s' = record (logged (Entry.delete (pm.prefix ++ key)) s) {
            orphan_records = delete s.orphan_records (pm.prefix ++ key);
          }}
          (rw gone (ap flag_after (delete_key_lem d.log (pm.prefix ++ key)))))

    sync_key-Grown :
        load pm.dirty key ≢ none
        → (s' : Store) × (sync_key key pm s ≡ (Unflagged pm key, s'))
          × Grown d.entries pm s (Unflagged pm key) s'
    unfolding logged
    sync_key-Grown dirty = elim (Option-cases (load pm.data_map key)) [
      | inl gone ↦ (
        _,
        sync_key-delete_key gone,
        unflag _ refl (delete-Settles gone)
            (HasLog-orphans (logged-HasLog d.log _ (d.dirty_fits key dirty)))
            (delete-Writes d.log (pm.prefix ++ key)),
      )
      | inr (v, there) ↦
          let l = d.values key v there in
          (
            _,
            sync_key-set v there l,
            unflag _ refl (set-Settles l there) (logged-HasLog d.log _ l.fits)
                (set-Writes d.log (pm.prefix ++ key) v l.valid l.json_of),
          )
    ]

  -- The flags of `pm` are those that stand in the list.
  Flagged : PersistMap → List (Bytes × Unit {0}) → Type 0
  Flagged pm l = (j : Bytes) → load pm.dirty j ≡ lookup j l

  -- What `Sync` leaves: the same values, no flag, and a log that holds every value.
  pub record Synced (es : List Entry) (pm : PersistMap) (s : Store) (pm' : PersistMap) (s' : Store)
      : Type 0 where
    pub same_data : pm'.data_map ≡ pm.data_map
    pub clean : (key : Bytes) → load pm'.dirty key ≡ none
    pub grown : Grown es pm s pm' s'

  Flagged-tail :
      (pm : PersistMap) (key : Bytes) (u : Unit {0}) (l : List (Bytes × Unit {0}))
      → lookup key l ≡ none
      → Flagged pm ((key, u) ∷ l)
      → Flagged (Unflagged pm key) l
  unfolding Flagged lookup
  Flagged-tail pm key u l once flags j =
      rw (load-delete pm.dirty key j) (elim (Bool-cases (equal key j)) [
        | inl same ↦ rw same (sym (subst (λ k. lookup k l ≡ none) ((equal_iff key j).0 same) once))
        | inr other ↦ rw other (flags j ∙ rw other)
      ])

  Flagged-head :
      (pm : PersistMap) (key : Bytes) (u : Unit {0}) (l : List (Bytes × Unit {0}))
      → Flagged pm ((key, u) ∷ l)
      → load pm.dirty key ≢ none
  unfolding Flagged lookup
  Flagged-head pm key u l flags clean = cc (rw (flags key, equal_refl key) at clean)

  sync_keys-Synced :
      (l : List (Bytes × Unit {0})) (pm : PersistMap) (s : Store) (d : Durable pm s)
      → Distinct l
      → Flagged pm l
      → Synced d.entries pm s (sync_keys l pm s).0 (sync_keys l pm s).1
  unfolding sync_keys
  sync_keys-Synced [] pm s d once flags = record {
    same_data = refl;
    clean = unfold Flagged lookup in flags;
    grown = Grown-refl d;
  }
  sync_keys-Synced ((key, u) ∷ l) pm s d once flags =
      let (s', step, g) = sync_key-Grown d key (Flagged-head pm key u l flags) in
      let rest =
        sync_keys-Synced l (Unflagged pm key) s' g.durable once.1
          (Flagged-tail pm key u l once.0 flags) in
      rw (step, sync_keys)
        (record {
          same_data = rest.same_data;
          clean = rest.clean;
          grown = Grown-trans g rest.grown;
        })

  -- `Sync` of a durable map: its store is open on a log whose records can all be read back and
  -- which holds what the map holds for every key that is not dirty; every value has a valid key
  -- and a JSON text that decodes to it and whose record can be read back, and the delete record of
  -- every dirty key can be read back; and no call of the operating system fails. Then the values
  -- are unchanged, no key stays dirty, and the map is durable, so the log holds the value of every
  -- key; only entries of the map were added to it.
  pub sync-Synced :
      {pm : PersistMap} {s : Store} (d : Durable pm s)
      → Synced d.entries pm s (sync pm s).0 (sync pm s).1
  unfolding sync
  sync-Synced {pm} {s} d =
      sync_keys-Synced (range pm.dirty) pm s d (range-Distinct pm.dirty)
        (unfold Flagged in λ j. sym (lookup-range pm.dirty j))
