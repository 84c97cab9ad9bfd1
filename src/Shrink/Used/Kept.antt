-- ===== src/Shrink/Used/Kept.antt =====
-- A `Shrink` during which the owner of a map calls `Set`, `SetAsync`, `Delete`, `DeleteAsync`, `Update`
-- and `Sync` of it.
use mathlib.Core.Path.{subst}
use go_persist.Base.{
  ◌≡◌, refl, sym, ap, ◌∙◌, false, some, List, [], ◌++◌, Bytes, All, All-append, All-behind,
  append-nil,
}
use go_persist.Env.XsyncMap.{XsyncMap}
use go_persist.Env.Json.{Json}
use go_persist.Env.Os.{at}
use go_persist.PersistMap.Durable.{Durable}
use go_persist.PersistMap.History.{Call, notes, Admissible}
use go_persist.Record.{buffer_size}
use go_persist.Record.Entry.{Entry, IsReadable}
use go_persist.Result.{ok}
use go_persist.Shrink.Guarded.{Rounds}
use go_persist.Shrink.Guarded.Phases.{all_windows, Compacted, shrink-Compacted}
use go_persist.Shrink.Interleaved.{begun}
use go_persist.Shrink.Used.{made, HasLog-as, Durable-as, using, Tidy}
use go_persist.Shrink.Used.Passes.{Early, Late, using-Phases}
use go_persist.Shrink.Work.{Orphans, Registered, Shared}
use go_persist.Shrink.{Window, shrink}
use go_persist.State.{PersistMap, Store}
use go_persist.Wal.Effects.{HasLog, replay}

module _ ⦃maps : XsyncMap⦄ ⦃json : Json⦄ where
  open maps use {Map, load}
  open json use {GoType, Value, marshal}

  -- The store of a durable map `pm`, which is registered as `name`, at rest: every registered map
  -- stands under its own name, which holds no colon, no orphan has a key of the map, and every value has
  -- a JSON text that a log can hold.
  pub record Usable (name : Bytes) (pm : PersistMap) (s : Store) : Type 0 where
    pub durable : Durable pm s
    pub registered : load s.persist_maps name ≡ some pm
    pub at_rest : s.shrinking ≡ false
    pub tidy : Tidy name s
    pub texts : Orphans s.orphan_records
    pub map_texts : Registered s.persist_maps

  -- What is left of such a store: the map is registered and durable, and holds what the calls of all
  -- windows have noted, in order. `rounds` are the windows of the drain.
  pub record Kept (name : Bytes) (pm : PersistMap) (calls : Window → List Call) (s' : Store)
      : Type 0 where
    pub map : PersistMap
    pub registered : load s'.persist_maps name ≡ some map
    pub durable : Durable map s'
    pub at_rest : s'.shrinking ≡ false
    pub rounds : List Window
    pub drained : Rounds 3 rounds
    pub holds :
        (key : Bytes)
        → load map.data_map key
          ≡ notes pm.value_type (made calls (all_windows rounds)) (λ j. load pm.data_map j) key

  Usable-Shared : {name : Bytes} {pm : PersistMap} {s : Store} → Usable name pm s → Shared (begun s)
  Usable-Shared h = record {
    is_loaded = h.durable.log.is_loaded;
    is_shrinking = refl;
    open_at = h.durable.log.handle;
    log = _;
    there = h.durable.log.stands;
    quiet = h.durable.log.no_faults;
    orphans = h.texts;
    registered = h.map_texts;
  }

  Usable-Early :
      {name : Bytes} {pm : PersistMap} {s : Store} (calls : Window → List Call)
      (h : Usable name pm s)
      → Early name calls pm.value_type h.durable.entries
          (λ j. load pm.data_map j)
          []
          []
          []
          (begun s)
  unfolding Durable-as made
  Usable-Early {pm = pm} calls h = record {
    owner = record {
      map = pm;
      registered = h.registered;
      typed = refl;
      durable = Durable-as h.durable (HasLog-as h.durable.log refl refl refl refl refl);
      extends = sym (append-nil h.durable.entries);
      tidy = record {
        named = h.tidy.named;
        no_orphan = h.tidy.no_orphan;
        orphans_fit = h.tidy.orphans_fit;
        maps_fit = h.tidy.maps_fit;
      };
      holds = λ j. unfold notes in refl;
    };
    apart = λ key. unfold replay in refl;
    readable = tt;
  }

  Late-Kept :
      {name : Bytes} {pm : PersistMap} {calls : Window → List Call} {old : List Entry}
      {home : Bytes} {s' : Store}
      → Compacted (Late name calls pm.value_type old (λ j. load pm.data_map j)) home s'
      → Kept name pm calls s'
  Late-Kept {name} {old = old} {s' = s'} c =
      let u = c.held.owner in
      let k = c.log.kept in
      let log : HasLog s' (c.found ++ c.written) = record {
        is_loaded = ap (λ (x : Store). x.loaded) k ∙ c.shared.is_loaded;
        handle = ap (λ (x : Store). x.f) k ∙ ap at (sym (ap (λ (x : Store). x.path) k));
        no_faults = c.log.quiet;
        synced = _;
        stands = ap (λ (p : Bytes). s'.os.files p) (ap (λ (x : Store). x.path) k) ∙ c.log.there;
        readable = All-append (IsReadable buffer_size) c.found c.written c.held.readable (
            All-behind (IsReadable buffer_size) old c.written
              (subst (All (IsReadable buffer_size)) u.extends u.durable.log.readable));
      } in
      record {
        map = u.map;
        registered = ap (λ (x : Store). load x.persist_maps name) k ∙ u.registered;
        durable = record {
          entries = c.found ++ c.written;
          log = log;
          in_log = c.held.in_log;
          values = u.durable.values;
          dirty_fits = u.durable.dirty_fits;
        };
        at_rest = ap (λ (x : Store). x.shrinking) k;
        rounds = c.rounds;
        drained = c.drained;
        holds = u.holds;
      }

  -- A `Shrink` of the store of a durable map (its store is open on a log whose records can all be
  -- read back and which holds what the map holds for every key that is not dirty; every value has
  -- a valid key and a JSON text that decodes to it and whose record can be read back, and the
  -- delete record of every dirty key can be read back; and no call of the operating system fails),
  -- while the only work in the windows without a lock is that the owner of the map calls `Set`,
  -- `SetAsync`, `Delete`, `DeleteAsync`, `Update` and `Sync` of it, with arguments such that every
  -- value that is set, or chosen by an updater for whatever it may be shown, has a valid key and a
  -- JSON text that decodes to it, and every record that is called for can be read back. No Shrink
  -- is running at the start; every registered map has its name and a colon as its prefix, and no
  -- registered name holds a colon; no orphan has a key of the map; every orphan and every value of
  -- a registered map has a text whose record can be read back. Then `Shrink` returns nil, and the
  -- map is durable afterwards: the new log holds what the map holds for every key that is not
  -- dirty. The map holds what the calls of all windows have noted, in order: those of the passes,
  -- those of the rounds of the drain, which are at most three, and those before the last lock.
  pub shrink-Kept :
      {name : Bytes} {pm : PersistMap} {s : Store} (calls : Window → List Call)
      → Usable name pm s
      → ((w : Window) → All (Admissible pm.value_type pm.prefix) (calls w))
      → ((shrink (using name calls) s).0 ≡ ok tt)
        × Kept name pm calls (shrink (using name calls) s).1
  shrink-Kept {name} {pm} {s} calls h admissible =
      let prefix = (h.tidy.named name pm h.registered).0 in
      let (success, c) =
        shrink-Compacted
          (using-Phases name calls pm.value_type h.durable.entries (λ j. load pm.data_map j)
            (λ w. subst (λ p. All (Admissible pm.value_type p) (calls w)) prefix (admissible w)))
          s h.at_rest (Usable-Shared h) (Usable-Early calls h) in
      (success, Late-Kept c)
