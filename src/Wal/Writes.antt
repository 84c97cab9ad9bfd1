-- ===== src/Wal/Writes.antt =====
-- Calls of `write` and `Store.Delete` that return nil, one after the other.
use mathlib.Core.Path.{subst}
use go_persist.Base.{◌≡◌, sym, ap, some, none, List, [], ◌∷◌, ◌++◌, append_assoc, append-nil, Bytes}
use go_persist.Env.XsyncMap.{XsyncMap}
use go_persist.Env.Json.{Json}
use go_persist.Key.{validate_key}
use go_persist.Record.Entry.{Entry}
use go_persist.Result.{Result, ok}
use go_persist.State.{Store}
use go_persist.Wal.Effects.{HasLog, logged, write_lem, delete_key_lem}
use go_persist.Wal.{write, delete_key}

module _ ⦃maps : XsyncMap⦄ ⦃json : Json⦄ where
  open json use {Value, marshal}

  -- `s'` is what `s` is after such calls; `es` are the records that they have written, in order.
  pub data Writes (s : Store) : List Entry → Store → Type 0 where
    nothing : Writes s [] s
    set :
        {es : List Entry} {s' : Store} (key : Bytes) (v : Value) {line : Bytes}
        → marshal v ≡ some line
        → (write key v s').0 ≡ ok tt
        → Writes s es s'
        → Writes s (es ++ Entry.set key line ∷ []) (write key v s').1
    delete :
        {es : List Entry} {s' : Store} (key : Bytes)
        → (delete_key key s').0 ≡ ok tt
        → Writes s es s'
        → Writes s (es ++ Entry.delete key ∷ []) (delete_key key s').1

  pub Writes-trans :
      {s s' s'' : Store} {es fs : List Entry}
      → Writes s es s'
      → Writes s' fs s''
      → Writes s (es ++ fs) s''
  Writes-trans {s} {s'} {s''} {es} w nothing = subst (λ l. Writes s l s'') (sym (append-nil es)) w
  Writes-trans {s} {s'} {s''} {es} w (set {es = fs} key v {line} json_of success more) =
      subst (λ l. Writes s l s'') (append_assoc es fs (Entry.set key line ∷ []))
        (set key v json_of success (Writes-trans w more))
  Writes-trans {s} {s'} {s''} {es} w (delete {es = fs} key success more) =
      subst (λ l. Writes s l s'') (append_assoc es fs (Entry.delete key ∷ []))
        (delete key success (Writes-trans w more))

  module _ {s : Store} {es : List Entry} (h : HasLog s es) where
    pub set-Writes :
        (key : Bytes) (v : Value) {line : Bytes}
        → validate_key key ≡ none
        → marshal v ≡ some line
        → Writes s (Entry.set key line ∷ []) (logged (Entry.set key line) s)
    set-Writes key v {line} valid json_of =
        let run = write_lem h key v valid json_of in
        subst (Writes s (Entry.set key line ∷ [])) (ap (λ (r : Result (Unit {0}) × Store). r.1) run)
          (set key v json_of (ap (λ (r : Result (Unit {0}) × Store). r.0) run) nothing)

    pub delete-Writes :
        (key : Bytes)
        → Writes s (Entry.delete key ∷ []) (record (logged (Entry.delete key) s) {
          orphan_records = maps.delete s.orphan_records key;
        })
    delete-Writes key =
        let run = delete_key_lem h key in
        subst (Writes s (Entry.delete key ∷ [])) (ap (λ (r : Result (Unit {0}) × Store). r.1) run)
          (delete key (ap (λ (r : Result (Unit {0}) × Store). r.0) run) nothing)
