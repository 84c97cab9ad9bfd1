-- ===== src/Shrink/Work.antt =====
-- What other goroutines do in a window of `Shrink`: steps on the store, with the records that they
-- acknowledge.
use mathlib.Core.Path.{subst}
use mathlib.Core.List.{map-append}
use go_persist.Record.{set_record, delete_record}
use go_persist.Base.{
  ◌≡◌, ◌≢◌, refl, sym, ap, ◌∙◌, true, false, none, some, List, [], ◌∷◌, ◌++◌, map, Bytes,
  append_assoc, append-nil, equal, equal_iff, Bool-cases, Option-cases, inl, inr, codes,
}
use go_persist.Env.XsyncMap.{XsyncMap}
use go_persist.Env.Json.{Json}
use go_persist.Env.Os
use go_persist.Env.Os.{Os, File, Handle, at}
use go_persist.Key.{validate_key}
use go_persist.PersistMap.Durable.{values-delete}
use go_persist.Record.Entry.{Entry, line_bytes}
use go_persist.Result.{ok}
use go_persist.Shrink.{tmp_path}
use go_persist.Shrink.Compacting.{tmp-ne-log}
use go_persist.Shrink.Steps.{orphan_text}
use go_persist.State.{PersistMap, Store}
use go_persist.Wal.{write, delete_key, count_record}

abbrev pub lines : List Entry → List Bytes
lines = map line_bytes

log-ne-tmp : (p : Bytes) → equal p (p ++ codes ".tmp") ≡ false
log-ne-tmp p = elim (Bool-cases (equal p (p ++ codes ".tmp"))) [
  | inr differs ↦ differs
  | inl same ↦ cc (
    (equal_iff (p ++ codes ".tmp") p).1 (sym ((equal_iff p (p ++ codes ".tmp")).0 same)),
    tmp-ne-log p,
  )
]

module _ ⦃maps : XsyncMap⦄ ⦃json : Json⦄ where
  open maps use {Map, load}
  open json use {Value, marshal}

  -- Every value has a text in the file.
  abbrev pub Orphans : Map Value → Type 0
  Orphans m = (key : Bytes) (v : Value) → load m key ≡ some v → orphan_text v ≢ none

  abbrev pub Registered : Map PersistMap → Type 0
  Registered m =
      (name : Bytes) (pm : PersistMap)
      → load m name ≡ some pm
      → (key : Bytes) (v : Value) → load pm.data_map key ≡ some v
      → marshal v ≢ none

  -- The store while it shrinks: open on a log that is there, with no fault of the operating system
  -- ahead.
  pub record Shared (s : Store) : Type 0 where
    pub is_loaded : s.loaded ≡ true
    pub is_shrinking : s.shrinking ≡ true
    pub open_at : s.f ≡ at s.path
    pub log : File
    pub there : s.os.files s.path ≡ some log
    pub quiet : s.os.faults ≡ []
    pub orphans : Orphans s.orphan_records
    pub registered : Registered s.persist_maps

  -- `s'` is what `s` is after steps of other goroutines that return nil; `es` are the records that
  -- they have written, in order. What they do to the maps in memory is open.
  pub data Work (s : Store) : List Entry → Store → Type 0 where
    nothing : Work s [] s
    writes :
        {es : List Entry} {s' : Store} (key : Bytes) (v : Value) {line : Bytes}
        → marshal v ≡ some line
        → (write key v s').0 ≡ ok tt
        → Work s es s'
        → Work s (es ++ Entry.set key line ∷ []) (write key v s').1
    deletes :
        {es : List Entry} {s' : Store} (key : Bytes)
        → (delete_key key s').0 ≡ ok tt
        → Work s es s'
        → Work s (es ++ Entry.delete key ∷ []) (delete_key key s').1
    changes :
        {es : List Entry} {s' : Store} (orphans : Map Value) (registered : Map PersistMap)
        → Orphans orphans
        → Registered registered
        → Work s es s'
        → Work s es (record s' { orphan_records = orphans; persist_maps = registered })

  -- What such steps leave alone, and what they leave to be drained.
  pub record Beside (s : Store) (es : List Entry) (s' : Store) : Type 0 where
    pub shared : Shared s'
    pub same_path : s'.path ≡ s.path
    pub tmp_kept : s'.os.files (tmp_path s) ≡ s.os.files (tmp_path s)
    pub captured : s'.pending_records ≡ s.pending_records ++ lines es

  -- The store after the bytes `b` have been appended to its log.
  abbrev pub after : File → Bytes → Store → Store
  after log b s = count_record b (record s { os = Os.put s.path (Os.append_bytes log b) s.os })

  module _ {s : Store} (h : Shared s) where
    pub write_shared :
        (key : Bytes) (v : Value) {line : Bytes}
        → marshal v ≡ some line
        → (write key v s).0 ≡ ok tt
        → (write key v s).1 ≡ after h.log (line_bytes (Entry.set key line)) s
    unfolding write line_bytes
    write_shared key v {line} json_of success = elim (Option-cases (validate_key key)) [
      | inr (x, refused) ↦ cc (simp (h.is_loaded, refused) at success)
      | inl valid ↦
          simp (h.is_loaded, valid, json_of)
            (simp (h.open_at)
              (rw (Os.write_no_faults s.path (set_record key line) s.os h.there h.quiet)))
    ]

    pub write_succeeds :
        (key : Bytes) (v : Value) {line : Bytes}
        → validate_key key ≡ none
        → marshal v ≡ some line
        → (write key v s).0 ≡ ok tt
    unfolding write
    write_succeeds key v {line} valid json_of =
        simp (h.is_loaded, valid, json_of)
          (simp (h.open_at)
            (rw (Os.write_no_faults s.path (set_record key line) s.os h.there h.quiet)))

    pub delete_succeeds : (key : Bytes) → (delete_key key s).0 ≡ ok tt
    unfolding delete_key
    delete_succeeds key =
        simp (h.is_loaded) (
          simp (h.open_at)
            (rw (Os.write_no_faults s.path (delete_record key) s.os h.there h.quiet)))

    pub delete_shared :
        (key : Bytes)
        → (delete_key key s).1 ≡ record (after h.log (line_bytes (Entry.delete key)) s) {
          orphan_records = maps.delete s.orphan_records key;
        }
    unfolding delete_key line_bytes
    delete_shared key =
        simp (h.is_loaded) (
          simp (h.open_at)
            (rw (Os.write_no_faults s.path (delete_record key) s.os h.there h.quiet)))

    after-Shared :
        (b : Bytes) (orphans : Map Value)
        → Orphans orphans
        → Shared (record (after h.log b s) { orphan_records = orphans })
    after-Shared b orphans texts = record {
      is_loaded = h.is_loaded;
      is_shrinking = h.is_shrinking;
      open_at = h.open_at;
      log = Os.append_bytes h.log b;
      there = Os.files-put_self s.path (Os.append_bytes h.log b) s.os;
      quiet = h.quiet;
      orphans = texts;
      registered = h.registered;
    }

  after-Beside :
      {s : Store} {es : List Entry} {s' : Store} (b : Beside s es s') (e : Entry)
      (orphans : Map Value)
      → Orphans orphans
      → Beside s
          (es ++ e ∷ [])
          (record (after b.shared.log (line_bytes e) s') { orphan_records = orphans })
  after-Beside {s} {es} {s'} b e orphans texts = record {
    shared = after-Shared b.shared (line_bytes e) orphans texts;
    same_path = b.same_path;
    tmp_kept = rw (b.same_path, log-ne-tmp s.path) b.tmp_kept;
    captured = rw b.shared.is_shrinking (
        ap (λ (l : List Bytes). l ++ line_bytes e ∷ []) b.captured
        ∙ append_assoc s.pending_records (lines es) (line_bytes e ∷ [])
        ∙ ap (λ (l : List Bytes). s.pending_records ++ l)
            (sym (map-append line_bytes es (e ∷ []))));
  }

  pub Work-Beside :
      {s : Store} {es : List Entry} {s' : Store} → Shared s → Work s es s' → Beside s es s'
  Work-Beside h nothing = record {
    shared = h;
    same_path = refl;
    tmp_kept = refl;
    captured = sym (append-nil _);
  }
  Work-Beside {s} h (writes {es} {s'} key v {line} json_of success work) =
      let b = Work-Beside h work in
      subst (Beside s (es ++ Entry.set key line ∷ []))
        (sym (write_shared b.shared key v json_of success))
        (after-Beside b (Entry.set key line) s'.orphan_records b.shared.orphans)
  Work-Beside {s} h (deletes {es} {s'} key success work) =
      let b = Work-Beside h work in
      subst (Beside s (es ++ Entry.delete key ∷ [])) (sym (delete_shared b.shared key)) (
        after-Beside b (Entry.delete key) (maps.delete s'.orphan_records key)
          (values-delete (λ k v. orphan_text v ≢ none) s'.orphan_records key b.shared.orphans))
  Work-Beside h (changes orphans registered texts map_texts work) =
      let b = Work-Beside h work in
      record {
        shared = record {
          is_loaded = b.shared.is_loaded;
          is_shrinking = b.shared.is_shrinking;
          open_at = b.shared.open_at;
          log = b.shared.log;
          there = b.shared.there;
          quiet = b.shared.quiet;
          orphans = texts;
          registered = map_texts;
        };
        same_path = b.same_path;
        tmp_kept = b.tmp_kept;
        captured = b.captured;
      }
