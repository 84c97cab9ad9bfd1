-- ===== src/PersistMap/History/Reopen.antt =====
-- A history, `Sync`, and the next `Open`.
use mathlib.Core.Option
use mathlib.Core.Path.{subst, subst₂}
use go_persist.Base.{
  ℕ, ◌≡◌, refl, sym, ap, ◌∙◌, Bool, true, false, Option, none, some, List, [], ◌∷◌, ◌++◌, Bytes,
  All, All-append, append_assoc, inr,
}
use go_persist.Env.XsyncMap.{XsyncMap}
use go_persist.Env.Json.{Json}
use go_persist.Loading.Dispatch.{Tracks, Reads, Decodes, types_of}
use go_persist.Loading.Recovery.{Openable, open_store-Opened}
use go_persist.Loading.Routing.{NoColon, full_key, Separates, index-NoColon, route-full_key}
use go_persist.Loading.{open_store, route}
use go_persist.PersistMap as Methods
use go_persist.PersistMap.{get, checked}
use go_persist.PersistMap.Durable.{Loggable, Durable, no_contents, decoded}
use go_persist.PersistMap.Durable.Grown.{Grown-trans, Belongs}
use go_persist.PersistMap.Durable.Sync.{sync-Synced}
use go_persist.PersistMap.History.{Call, run, View, notes, Admissible}
use go_persist.PersistMap.History.Follows.{run-Follows}
use go_persist.Wal.Effects.{replay}
use go_persist.Record.Entry.{Entry, entry_key}
use go_persist.Result.{Result, ok}
use go_persist.State.{PersistMap, Store}

module _ ⦃maps : XsyncMap⦄ ⦃json : Json⦄ where
  open maps use {load}
  open json use {GoType, Value, zero_value, has_type}

  -- What `Get` says of a key.
  abbrev pub answer : GoType → Option Value → Result (Value × Bool)
  answer t none = ok (zero_value t, false)
  answer t (some v) = ok (v, true)

  -- The calls, then `Sync`.
  abbrev pub synced_run : List Call → PersistMap × Store → PersistMap × Store
  synced_run cs p = let (pm', s') = run cs p in Methods.sync pm' s'

  get-answer :
      (t : GoType) (pm : PersistMap) (key : Bytes) (o : Option Value)
      → pm.value_type ≡ t
      → load pm.data_map key ≡ o
      → ((v : Value) → o ≡ some v → has_type t v ≡ true)
      → get key pm ≡ answer t o
  unfolding get
  get-answer t pm key none typed there fits = rw there (ap (λ (u : GoType). answer u none) typed)
  get-answer t pm key (some v) typed there fits =
      rw there (rw (ap (λ (u : GoType). has_type u v) typed ∙ fits v refl))

  Belongs-Separates :
      (t : GoType) (name : Bytes) (e : Entry)
      → NoColon name
      → Belongs t (name ++ b':' ∷ []) e
      → Separates name (entry_key e)
  Belongs-Separates t name (Entry.set k line) plain ((j, form), _) =
      inr (λ gone.
        cc (rw (form, append_assoc name (b':' ∷ []) j, index-NoColon name j plain) at gone))
  Belongs-Separates t name (Entry.delete k) plain (j, form) =
      inr (λ gone.
        cc (rw (form, append_assoc name (b':' ∷ []) j, index-NoColon name j plain) at gone))

  Belongs-Decodes :
      {t : GoType} {name : Bytes} {s : Store} (e : Entry)
      → NoColon name
      → Tracks name t no_contents s
      → Belongs t (name ++ b':' ∷ []) e
      → Decodes (types_of s) e
  Belongs-Decodes {t} {name} {s} (Entry.set k line) plain tr ((j, form), decoded) =
      let to_name : (route k).0 ≡ name =
        ap (λ (b : Bytes). (route b).0) (form ∙ append_assoc name (b':' ∷ []) j)
        ∙ ap (λ (r : Bytes × Bytes). r.0) (route-full_key name j plain) in
      let here : types_of s name ≡ some t =
        ap (Option.map (λ (pm : PersistMap). pm.value_type)) tr.registered ∙ ap some tr.typed in
      subst (λ o. Reads o line) (sym (ap (types_of s) to_name ∙ here)) decoded
  Belongs-Decodes (Entry.delete k) plain tr own = tt

  All-map :
      {P Q : Entry → Type 0} (es : List Entry) → ((e : Entry) → P e → Q e) → All P es → All Q es
  All-map [] f h = tt
  All-map (e ∷ es) f h = (f e h.0, All-map es f h.1)

  -- A map called `name`, of type `t`, is durable beside a log at `path` with no entries but its own,
  -- and holds `m`.
  pub record Holding (name : Bytes) (t : GoType) (path : Bytes) (m : View) (pm : PersistMap)
      (s : Store) : Type 0 where
    pub durable : Durable pm s
    pub own : All (Belongs t (name ++ b':' ∷ [])) durable.entries
    pub typed : pm.value_type ≡ t
    pub prefixed : pm.prefix ≡ name ++ b':' ∷ []
    pub at_path : s.path ≡ path
    pub holds : (key : Bytes) → load pm.data_map key ≡ m key

  module _ {name : Bytes} {t : GoType} {path : Bytes} {m : View} {pm : PersistMap} {s : Store}
      (h : Holding name t path m pm s) where
    -- `Get` of such a map.
    pub get-Holding : (key : Bytes) → get key pm ≡ answer t (m key)
    get-Holding key = get-answer t pm key (m key) h.typed (h.holds key) (λ v there.
        let l = h.durable.values key v (h.holds key ∙ there) in
        sym (ap (λ (u : GoType). has_type u v) h.typed)
        ∙ json.unmarshal-has_type pm.value_type l.line v l.reads_back)

    -- The calls, then `Sync`.
    pub synced_run-Holding :
        (cs : List Call)
        → All (Admissible t (name ++ b':' ∷ [])) cs
        → Holding name t path (notes t cs m) (synced_run cs (pm, s)).0 (synced_run cs (pm, s)).1
          × ((key : Bytes) → load (synced_run cs (pm, s)).0.dirty key ≡ none)
    synced_run-Holding cs admissible =
        let followed =
          run-Follows cs h.durable m h.holds
            (subst₂ (λ u p. All (Admissible u p) cs) (sym h.typed) (sym h.prefixed) admissible) in
        let rest = sync-Synced followed.grown.durable in
        let whole = Grown-trans followed.grown rest.grown in
        (
          record {
            durable = whole.durable;
            own = subst (All (Belongs t (name ++ b':' ∷ []))) (sym whole.extends) (
                All-append (Belongs t (name ++ b':' ∷ [])) h.durable.entries whole.added h.own
                  (subst₂ (λ u p. All (Belongs u p) whole.added) h.typed h.prefixed whole.own));
            typed = whole.typed ∙ h.typed;
            prefixed = whole.prefixed ∙ h.prefixed;
            at_path = whole.at_path ∙ h.at_path;
            holds = λ key.
                ap (λ x. load x key) rest.same_data
                ∙ followed.holds key
                ∙ ap (λ (u : GoType). notes u cs m key) h.typed;
          },
          rest.clean,
        )

    logged_value :
        (key : Bytes)
        → load pm.dirty key ≡ none
        → m key ≡ decoded t (replay no_contents h.durable.entries (full_key name key))
    logged_value key clean =
        sym (h.holds key)
        ∙ h.durable.in_log key clean
        ∙ ap (λ (u : GoType). decoded u (replay no_contents h.durable.entries (pm.prefix ++ key)))
            h.typed
        ∙ ap (λ (p : Bytes). decoded t (replay no_contents h.durable.entries (p ++ key))) h.prefixed
        ∙ ap (λ (k : Bytes). decoded t (replay no_contents h.durable.entries k))
            (append_assoc name (b':' ∷ []) key)

    Holding-Openable :
        {s₀ : Store}
        → NoColon name
        → s₀.loaded ≡ false
        → s₀.os.faults ≡ []
        → s₀.os.files path ≡ s.os.files path
        → Tracks name t no_contents s₀
        → Openable path h.durable.entries name t s₀
    Holding-Openable plain closed quiet copied tracks = record {
      not_loaded = closed;
      synced = h.durable.log.synced;
      there = copied ∙ ap (λ (p : Bytes). s.os.files p) (sym h.at_path) ∙ h.durable.log.stands;
      quiet = quiet;
      readable = h.durable.log.readable;
      plain = plain;
      tracks = tracks;
      separates = All-map h.durable.entries (λ e own. Belongs-Separates t name e plain own) h.own;
      decodes = All-map h.durable.entries (λ e own. Belongs-Decodes e plain tracks own) h.own;
    }

    -- A second store that is not open, with an empty map of that name and type, is opened on a copy of
    -- the file; no key of the first map is dirty.
    pub open_store-Holding :
        (s₀ : Store) (ahead : ℕ)
        → NoColon name
        → ((key : Bytes) → load pm.dirty key ≡ none)
        → s₀.loaded ≡ false
        → s₀.os.faults ≡ []
        → s₀.os.files path ≡ s.os.files path
        → Tracks name t no_contents s₀
        → ((open_store ahead path s₀).0 ≡ ok tt)
          × ((pm' : PersistMap) × (load (open_store ahead path s₀).1.persist_maps name ≡ some pm')
              × Holding name t path m pm' (open_store ahead path s₀).1)
    open_store-Holding s₀ ahead plain clean closed quiet copied tracks =
        let (success, opened) =
          open_store-Opened path h.durable.entries s₀
            (Holding-Openable plain closed quiet copied tracks) ahead in
        let tr = opened.tracks in
        let same : (key : Bytes) → load tr.pm.data_map key ≡ m key =
          λ key. tr.holds key ∙ sym (logged_value key (clean key)) in
        (
          success,
          (
            tr.pm,
            tr.registered,
            record {
              durable = record {
                entries = h.durable.entries;
                log = opened.has_log;
                in_log = λ key tr_clean.
                    tr.holds key
                    ∙ ap (λ (k : Bytes). decoded t (replay no_contents h.durable.entries k))
                        (sym (append_assoc name (b':' ∷ []) key))
                    ∙ ap
                        (λ (p : Bytes). decoded t (replay no_contents h.durable.entries (p ++ key)))
                        (sym tr.prefixed)
                    ∙ ap
                        (λ (u : GoType).
                          decoded u (replay no_contents h.durable.entries (tr.pm.prefix ++ key)))
                        (sym tr.typed);
                values = λ key v there.
                    subst₂ (λ u p. Loggable u p key v) (h.typed ∙ sym tr.typed)
                      (h.prefixed ∙ sym tr.prefixed)
                      (h.durable.values key v (h.holds key ∙ sym (same key) ∙ there));
                dirty_fits = λ key dirty. absurd (dirty (tr.clean key));
              };
              own = h.own;
              typed = tr.typed;
              prefixed = tr.prefixed;
              at_path = opened.at_path;
              holds = same;
            },
          ),
        )
