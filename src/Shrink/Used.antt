-- ===== src/Shrink/Used.antt =====
-- A map whose owner calls `Set`, `SetAsync`, `Delete`, `DeleteAsync`, `Update` and `Sync` of it while
-- `Shrink` runs.
pub mod Calls
pub mod Passes
pub mod Kept
use mathlib.Core.Path.{subst}
use go_persist.Base.{
  ◌≡◌, ◌≢◌, refl, sym, ap, ◌∙◌, Option, none, some, List, [], ◌∷◌, ◌++◌, Bytes, All, append_assoc,
  append-nil,
}
use go_persist.Env.XsyncMap.{XsyncMap}
use go_persist.Env.Json.{Json}
use go_persist.Env.Os.{at}
use go_persist.Loading.Routing.{full_key}
use go_persist.PersistMap.Durable.{Durable, InLogs, values-store}
use go_persist.PersistMap.History.{Call, run, View, notes, Admissible}
use go_persist.PersistMap.History.Follows.{run-Follows}
use go_persist.Record.Entry.{Entry}
use go_persist.Shrink.Calls.{Writes-Work, Writes-Quiet}
use go_persist.Shrink.Durable.{WellNamed}
use go_persist.Shrink.Fits.{AllFit, MapsFit}
use go_persist.Shrink.Steps.{orphan_text}
use go_persist.Shrink.Work as Works
use go_persist.Shrink.Work.{Shared, Work, Work-Beside}
use go_persist.Shrink.{Window}
use go_persist.State.{PersistMap, Store}
use go_persist.Wal.Effects.{HasLog}

module _ ⦃maps : XsyncMap⦄ ⦃json : Json⦄ where
  open maps use {Map, load, store}
  open json use {GoType, Value, marshal}

  -- The calls of these windows.
  unfoldable pub made : (Window → List Call) → List Window → List Call
  made calls [] = []
  made calls (w ∷ ws) = calls w ++ made calls ws

  made-append :
      (calls : Window → List Call) (ws vs : List Window)
      → made calls (ws ++ vs) ≡ made calls ws ++ made calls vs
  unfolding made
  made-append calls [] vs = refl
  made-append calls (w ∷ ws) vs =
      ap (λ (l : List Call). calls w ++ l) (made-append calls ws vs)
      ∙ sym (append_assoc (calls w) (made calls ws) (made calls vs))

  notes-append :
      (t : GoType) (cs ds : List Call) (m : View) → notes t (cs ++ ds) m ≡ notes t ds (notes t cs m)
  unfolding notes
  notes-append t [] ds m = refl
  notes-append t (c ∷ cs) ds m = notes-append t cs ds _

  -- The calls of one more window.
  pub notes-made :
      (t : GoType) (calls : Window → List Call) (ws : List Window) (w : Window) (m : View)
      → notes t (calls w) (notes t (made calls ws) m) ≡ notes t (made calls (ws ++ w ∷ [])) m
  unfolding made
  notes-made t calls ws w m =
      sym (notes-append t (made calls ws) (calls w) m)
      ∙ ap (λ (l : List Call). notes t (made calls ws ++ l) m) (sym (append-nil (calls w)))
      ∙ ap (λ (l : List Call). notes t l m) (sym (made-append calls ws (w ∷ [])))

  pub HasLog-as :
      {s s' : Store} {es : List Entry}
      → HasLog s es
      → s'.loaded ≡ s.loaded
      → s'.f ≡ s.f
      → s'.path ≡ s.path
      → s'.os.faults ≡ s.os.faults
      → s'.os.files s.path ≡ s.os.files s.path
      → HasLog s' es
  HasLog-as {s' = s'} h loaded handle path faults file = record {
    is_loaded = loaded ∙ h.is_loaded;
    handle = handle ∙ h.handle ∙ ap at (sym path);
    no_faults = faults ∙ h.no_faults;
    synced = h.synced;
    stands = ap s'.os.files path ∙ file ∙ h.stands;
    readable = h.readable;
  }

  unfoldable pub Durable-as :
      {pm : PersistMap} {s s' : Store} (d : Durable pm s) → HasLog s' d.entries → Durable pm s'
  Durable-as d log = record {
    entries = d.entries;
    log = log;
    in_log = d.in_log;
    values = d.values;
    dirty_fits = d.dirty_fits;
  }

  -- What the store is after a map has been registered again as `name`.
  abbrev pub back : Bytes → PersistMap × Store → Store
  back name (pm, s) = record s { persist_maps = store s.persist_maps name pm }

  abbrev pub call_map : Bytes → List Call → Option PersistMap → Store → Store
  call_map name cs none s = s
  call_map name cs (some pm) s = back name (run cs (pm, s))

  -- The owner of the map `name` makes the calls of each window.
  abbrev pub using : Bytes → (Window → List Call) → Window → Store → Store
  using name calls w s = call_map name (calls w) (load s.persist_maps name) s

  -- Every registered map stands under its own name, no orphan has a key of the map `name`, and the
  -- records of all values can be read back.
  pub record Tidy (name : Bytes) (s : Store) : Type 0 where
    pub named :
        (n : Bytes) (other : PersistMap) → load s.persist_maps n ≡ some other → WellNamed (n, other)
    pub no_orphan : (key : Bytes) → load s.orphan_records (full_key name key) ≡ none
    pub orphans_fit : AllFit orphan_text [] s.orphan_records
    pub maps_fit : MapsFit s.persist_maps

  module _ (name : Bytes) (calls : Window → List Call) (t : GoType) (old : List Entry)
      (m : View) where
    -- The map is registered and durable, and holds what the calls of the windows `ws` have noted, from
    -- `m` on. They have written the records `p` behind `old`.
    pub record Using (ws : List Window) (p : List Entry) (s : Store) : Type 0 where
      pub map : PersistMap
      pub registered : load s.persist_maps name ≡ some map
      pub typed : map.value_type ≡ t
      pub durable : Durable map s
      pub extends : durable.entries ≡ old ++ p
      pub tidy : Tidy name s
      pub holds : (j : Bytes) → load map.data_map j ≡ notes t (made calls ws) m j

    -- The same map beside a store that has moved.
    unfoldable pub Using-as :
        {ws : List Window} {p : List Entry} {s s' : Store} (u : Using ws p s)
        → HasLog s' u.durable.entries
        → s'.persist_maps ≡ s.persist_maps
        → s'.orphan_records ≡ s.orphan_records
        → Using ws p s'
    unfolding Durable-as
    Using-as {s' = s'} u log same_maps same_orphans = record {
      map = u.map;
      registered = ap (λ (x : Map PersistMap). load x name) same_maps ∙ u.registered;
      typed = u.typed;
      durable = Durable-as u.durable log;
      extends = u.extends;
      tidy = record {
        named = λ n other there.
            u.tidy.named n other (sym (ap (λ (x : Map PersistMap). load x n) same_maps) ∙ there);
        no_orphan = λ key.
            ap (λ (x : Map Value). load x (full_key name key)) same_orphans ∙ u.tidy.no_orphan key;
        orphans_fit = subst (AllFit orphan_text []) (sym same_orphans) u.tidy.orphans_fit;
        maps_fit = subst MapsFit (sym same_maps) u.tidy.maps_fit;
      };
      holds = u.holds;
    }
