-- ===== src/Shrink/Used/Calls.antt =====
-- The calls of a window keep the map that makes them.
use mathlib.Core.Path.{subst, subst₂}
use go_persist.Base.{
  ◌≡◌, ◌≢◌, refl, sym, ap, ◌∙◌, Option, none, some, List, [], ◌∷◌, ◌++◌, Bytes, All, append_assoc,
  Option-cases, inl, inr, equal_refl,
}
use go_persist.Env.XsyncMap.{XsyncMap}
use go_persist.Env.Json.{Json}
use go_persist.Loading.Routing.{full_key}
use go_persist.PersistMap.Durable.{Durable, InLogs, values-store}
use go_persist.PersistMap.Durable.Grown.{Grown}
use go_persist.PersistMap.History.{Call, run, View, notes, Admissible}
use go_persist.PersistMap.History.Follows.{run-Follows}
use go_persist.Record.{buffer_size}
use go_persist.Record.Entry.{Entry, IsReadable}
use go_persist.Shrink.Calls.{Writes-Work, Quiet, Writes-Quiet}
use go_persist.Shrink.Durable.{WellNamed}
use go_persist.Shrink.Fits.{AllFit, MapsFit}
use go_persist.Shrink.Used.{
  made, notes-made, HasLog-as, Durable-as, back, call_map, using, Tidy, Using,
}
use go_persist.Shrink.Work as Works
use go_persist.Shrink.Work.{Registered, Shared, Work, Work-Beside}
use go_persist.Shrink.{Window}
use go_persist.State.{PersistMap, Store}

module _ ⦃maps : XsyncMap⦄ ⦃json : Json⦄ where
  open maps use {Map, load, store, load-store}
  open json use {GoType, Value, marshal}

  data_texts :
      {pm : PersistMap} {s : Store} (d : Durable pm s) (key : Bytes) (v : Value)
      → load pm.data_map key ≡ some v
      → marshal v ≢ none
  data_texts d key v there gone = let l = d.values key v there in cc (l.json_of, gone)

  data_fits : {pm : PersistMap} {s : Store} → Durable pm s → AllFit marshal pm.prefix pm.data_map
  data_fits {pm} d key v there line json_of =
      let l = d.values key v there in
      let same : l.line ≡ line = cc (l.json_of, json_of) in
      subst (λ b. IsReadable buffer_size (Entry.set (pm.prefix ++ key) b)) same l.fits

  -- Calls have led from `pm` beside `s` to `pm'` beside `s'`.
  module _ {pm pm' : PersistMap} {s s' : Store} {es : List Entry} (h : Shared s)
      (g : Grown es pm s pm' s') where
    quiet : Quiet s s'
    quiet = Writes-Quiet h g.writes

    shared_after : Shared s'
    shared_after = (Work-Beside h (Writes-Work g.writes)).shared

    module _ (name : Bytes) where
      back-Registered : Registered (store s'.persist_maps name pm')
      back-Registered =
          values-store
            (λ n (other : PersistMap).
              (key : Bytes) (v : Value) → load other.data_map key ≡ some v → marshal v ≢ none)
            s'.persist_maps name pm' shared_after.registered (data_texts g.durable)

      back-Work : Work s g.added (back name (pm', s'))
      back-Work =
          Works.changes s'.orphan_records (store s'.persist_maps name pm') shared_after.orphans
            back-Registered (Writes-Work g.writes)

      back-Tidy : WellNamed (name, pm) → Tidy name s → Tidy name (back name (pm', s'))
      back-Tidy named tidy = record {
        named =
            values-store (λ n other. WellNamed (n, other)) s'.persist_maps name pm'
              (subst
                (λ (x : Map PersistMap).
                  (n : Bytes) (other : PersistMap) → load x n ≡ some other → WellNamed (n, other))
                (sym quiet.same_maps) tidy.named)
              (g.prefixed ∙ named.0, named.1);
        no_orphan = λ key. elim (Option-cases (load s'.orphan_records (full_key name key))) [
          | inl gone ↦ gone
          | inr (v, there) ↦ cc (quiet.fewer (full_key name key) v there, tidy.no_orphan key)
        ];
        orphans_fit = λ k v there. tidy.orphans_fit k v (quiet.fewer k v there);
        maps_fit =
            values-store (λ n (other : PersistMap). AllFit marshal other.prefix other.data_map)
              s'.persist_maps name pm' (subst MapsFit (sym quiet.same_maps) tidy.maps_fit)
              (data_fits g.durable);
      }

  module _ {name : Bytes} {calls : Window → List Call} {t : GoType} {old : List Entry} {m : View}
      (admissible : (w : Window) → All (Admissible t (name ++ b':' ∷ [])) (calls w)) where
    -- What a window leaves: the map, with the records `fs` behind any log that held it.
    abbrev pub Continues :
        (w : Window) (ws : List Window) (p : List Entry) (s : Store)
        → Using name calls t old m ws p s
        → Store
        → Type 0
    Continues w ws p s u s' =
        (fs : List Entry) × Work s fs s'
        × ((u' : Using name calls t old m (ws ++ w ∷ []) (p ++ fs) s') × ((l : List Entry)
              → InLogs u.map l
              → InLogs u'.map (l ++ fs)))

    pub using-Continues :
        (w : Window) {ws : List Window} {p : List Entry} {s : Store}
        (u : Using name calls t old m ws p s)
        → Shared s
        → Continues w ws p s u (using name calls w s)
    unfolding Durable-as
    using-Continues w {ws} {p} {s} u h =
        let own = u.tidy.named name u.map u.registered in
        let follows = run-Follows (calls w) u.durable (notes t (made calls ws) m) u.holds (
          subst₂ (λ t p. All (Admissible t p) (calls w)) (sym u.typed) (sym own.0)
            (admissible w)) in
        let g = follows.grown in
        let pm' : PersistMap = (run (calls w) (u.map, s)).0 in
        let s' : Store = (run (calls w) (u.map, s)).1 in
        subst (λ (o : Option PersistMap). Continues w ws p s u (call_map name (calls w) o s))
          (sym u.registered)
          (
            g.added,
            back-Work h g name,
            (
              record {
                map = pm';
                registered = load-store s'.persist_maps name pm' name ∙ rw (equal_refl name);
                typed = g.typed ∙ u.typed;
                durable = Durable-as g.durable (HasLog-as g.durable.log refl refl refl refl refl);
                extends =
                    g.extends
                    ∙ ap (λ (l : List Entry). l ++ g.added) u.extends
                    ∙ append_assoc old p g.added;
                tidy = back-Tidy h g name own u.tidy;
                holds = λ j.
                    follows.holds j
                    ∙ ap (λ x. notes x (calls w) (notes t (made calls ws) m) j) u.typed
                    ∙ ap (λ (v : View). v j) (notes-made t calls ws w m);
              },
              g.logs,
            ),
          )
