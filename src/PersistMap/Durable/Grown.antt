-- ===== src/PersistMap/Durable/Grown.antt =====
-- What an operation adds to the log of a durable map.
use mathlib.Core.Path.{subst, subst₂}
use go_persist.Base.{
  All, All-append, append-nil, append_assoc, ◌≡◌, refl, sym, ap, ◌∙◌, some, List, [], ◌++◌, Bytes,
}
use go_persist.Env.XsyncMap.{XsyncMap}
use go_persist.Env.Json.{Json}
use go_persist.Record.Entry.{Entry}
use go_persist.State.{PersistMap, Store}
use go_persist.Wal.Writes.{Writes, Writes-trans, nothing}
use go_persist.PersistMap.Durable.{InLogs, Durable}

module _ ⦃maps : XsyncMap⦄ ⦃json : Json⦄ where
  open maps use {
    load, store, delete, compute, load-store, load-delete, compute_keep, compute_remove,
  }
  open json use {GoType, Value, marshal, unmarshal}

  -- An entry of the map with the prefix `p`, with a value that the map can read.
  abbrev pub Belongs : GoType → Bytes → Entry → Type 0
  Belongs t p (Entry.set k line) =
      ((j : Bytes) × (k ≡ p ++ j)) × ((v : Value) × (unmarshal t line ≡ some v))
  Belongs t p (Entry.delete k) = (j : Bytes) × (k ≡ p ++ j)

  -- An operation has led from `pm` beside `s`, whose log was `es`, to a durable map: only entries of
  -- the map were added, by calls that returned nil. Any log that held the map, with these entries
  -- behind it, holds it again.
  pub record Grown (es : List Entry) (pm : PersistMap) (s : Store) (pm' : PersistMap) (s' : Store)
      : Type 0 where
    pub typed : pm'.value_type ≡ pm.value_type
    pub prefixed : pm'.prefix ≡ pm.prefix
    pub at_path : s'.path ≡ s.path
    pub durable : Durable pm' s'
    pub added : List Entry
    pub extends : durable.entries ≡ es ++ added
    pub own : All (Belongs pm.value_type pm.prefix) added
    pub writes : Writes s added s'
    pub logs : (l : List Entry) → InLogs pm l → InLogs pm' (l ++ added)

  pub Grown-refl : {pm : PersistMap} {s : Store} (d : Durable pm s) → Grown d.entries pm s pm s
  Grown-refl {pm} d = record {
    typed = refl;
    prefixed = refl;
    at_path = refl;
    durable = d;
    added = [];
    extends = sym (append-nil d.entries);
    own = tt;
    writes = nothing;
    logs = λ l held. subst (InLogs pm) (sym (append-nil l)) held;
  }

  pub Grown-trans :
      {es : List Entry} {pm pm' pm'' : PersistMap} {s s' s'' : Store} (g : Grown es pm s pm' s')
      → Grown g.durable.entries pm' s' pm'' s''
      → Grown es pm s pm'' s''
  Grown-trans {es} {pm} {pm''} g h = record {
    typed = h.typed ∙ g.typed;
    prefixed = h.prefixed ∙ g.prefixed;
    at_path = h.at_path ∙ g.at_path;
    durable = h.durable;
    added = g.added ++ h.added;
    extends =
        h.extends
        ∙ ap (λ (l : List Entry). l ++ h.added) g.extends
        ∙ append_assoc es g.added h.added;
    own =
        All-append (Belongs pm.value_type pm.prefix) g.added h.added g.own
          (subst₂ (λ t p. All (Belongs t p) h.added) g.typed g.prefixed h.own);
    writes = Writes-trans g.writes h.writes;
    logs = λ l held.
        subst (InLogs pm'') (append_assoc l g.added h.added)
          (h.logs (l ++ g.added) (g.logs l held));
  }
