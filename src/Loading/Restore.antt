-- ===== src/Loading/Restore.antt =====
-- Opening a store on a file from which entries are read.
use mathlib.Core.Path.{subst, fun_ext}
use go_persist.Base.{
  true, ℕ, suc, ◌+◌, ◌≡◌, refl, sym, ap, ◌∙◌, false, some, List, [], ◌∷◌, ◌++◌, map, Bytes, All,
  length, arith,
}
use go_persist.Env.XsyncMap.{XsyncMap}
use go_persist.Env.Json.{Json}
use go_persist.Env.Os
use go_persist.Env.Os.{Os, File, at}
use go_persist.Header.{is_wal_header}
use go_persist.Loading.Dispatch.{Tracks, Loaded, KeepsRest, Decodes, types_of, dispatch-Loaded}
use go_persist.Loading.Routing.{NoColon, Separates}
use go_persist.Loading.{
  process_all, process_records, open_file, open_store, start_sync, skip_line, first_line,
}
use go_persist.PersistMap.Durable.{no_contents}
use go_persist.Record.Entry.{Entry, entry_record, entry_key}
use go_persist.Record.Log.{read_file, at_eof}
use go_persist.Result.{ok}
use go_persist.State.{Store}
use go_persist.Wal.{wal_header, add32}
use go_persist.Wal.Effects.{Contents, apply, replay}

module _ ⦃maps : XsyncMap⦄ ⦃json : Json⦄ where
  open json use {GoType}

  KeepsRest-trans : (s s' s'' : Store) → KeepsRest s s' → KeepsRest s' s'' → KeepsRest s s''
  KeepsRest-trans s s' s'' h k =
      k
      ∙ ap
          (λ (x : Store). record x {
            persist_maps = s''.persist_maps;
            orphan_records = s''.orphan_records;
          })
          h

  Loaded-trans :
      {name : Bytes} {t : GoType} {m m' : Contents} {s s' s'' : Store}
      → Loaded name t m s s'
      → Loaded name t m' s' s''
      → Loaded name t m' s s''
  Loaded-trans {s} {s'} {s''} h k = record {
    tracks = k.tracks;
    same_types = λ n. k.same_types n ∙ h.same_types n;
    keeps = KeepsRest-trans s s' s'' h.keeps k.keeps;
  }

  pub process_all-Loaded :
      {name : Bytes} {t : GoType} {m : Contents} {s : Store} (es : List Entry)
      → NoColon name
      → Tracks name t m s
      → All (λ e. Separates name (entry_key e)) es
      → All (Decodes (types_of s)) es
      → (s' : Store) × (process_all (map entry_record es) s ≡ (ok tt, length es, s'))
        × Loaded name t (replay m es) s s'
  unfolding process_all replay
  process_all-Loaded {m = m} {s = s} [] plain tr sep reads =
      (s, refl, record { tracks = tr; same_types = λ n. refl; keeps = refl })
  process_all-Loaded {m = m} {s = s} (e ∷ es) plain tr sep reads =
      let (s₁, step, h) = dispatch-Loaded e plain tr sep.0 reads.0 in
      let reads' = subst (λ types. All (Decodes types) es) (sym (fun_ext h.same_types)) reads.1 in
      let (s₂, steps, k) =
        process_all-Loaded {m = apply e m} {s = s₁} es plain h.tracks sep.1 reads' in
      let n : length es + 1 ≡ suc (length es) = omega arith in
      (s₂, rw (step, process_all) (rw (steps, n)), Loaded-trans h k)

  pub open_file_lem :
      (path : Bytes) (os : Os) (rest : Bytes) (synced : ℕ)
      → os.files path ≡ some (record { content = wal_header ++ rest; synced = synced })
      → os.faults ≡ []
      → open_file path os ≡ (ok tt, os)
  unfolding open_file Os.open_append Os.attempt first_line is_wal_header
  open_file_lem path os rest synced there quiet = rw (quiet, there) (rw there)

  skip_line_header : (rest : Bytes) → skip_line (wal_header ++ rest) ≡ rest
  unfolding skip_line
  skip_line_header rest = refl

  -- A store that is not open yet, with an empty map of type `t` registered under a name with no
  -- colon; and at `path` a file from which the entries `es` are read, each of which can be decoded by
  -- the map that it goes to. No call of the operating system will fail.
  pub record Source (path rest : Bytes) (es : List Entry) (name : Bytes) (t : GoType) (s : Store)
      : Type 0 where
    pub not_loaded : s.loaded ≡ false
    pub synced : ℕ
    pub there : s.os.files path ≡ some (record { content = wal_header ++ rest; synced = synced })
    pub quiet : s.os.faults ≡ []
    pub reads : read_file rest ≡ record { records = map entry_record es; stop = at_eof }
    pub plain : NoColon name
    pub tracks : Tracks name t no_contents s
    pub separates : All (λ e. Separates name (entry_key e)) es
    pub decodes : All (Decodes (types_of s)) es

  -- What `Open` leaves: the map holds what the entries stand for, the records are counted, the file is
  -- as it was, and the store is open on it.
  pub record Restored (path rest : Bytes) (es : List Entry) (name : Bytes) (t : GoType)
      (s s' : Store) : Type 0 where
    pub tracks : Tracks name t (replay no_contents es) s'
    pub is_loaded : s'.loaded ≡ true
    pub handle : s'.f ≡ at s'.path
    pub no_faults : s'.os.faults ≡ []
    pub synced : ℕ
    pub stands :
        s'.os.files s'.path ≡ some (record { content = wal_header ++ rest; synced = synced })
    pub counted : s'.total_wal_records ≡ add32 s.total_wal_records (length es)
    pub at_path : s'.path ≡ path

  abbrev at_file : Bytes → Store → Store
  at_file path s = record s { f = at path; path = path }

  module _ (path rest : Bytes) (es : List Entry) {name : Bytes} {t : GoType} (s : Store)
      (h : Source path rest es name t s) where
    Tracks-at_file : Tracks name t no_contents (at_file path s)
    Tracks-at_file = record {
      pm = h.tracks.pm;
      registered = h.tracks.registered;
      typed = h.tracks.typed;
      prefixed = h.tracks.prefixed;
      clean = h.tracks.clean;
      holds = h.tracks.holds;
    }

    process_records_lem :
        (ahead : ℕ)
        → (s' : Store) × (process_records ahead (at_file path s)
            ≡ (ok tt, record s' { total_wal_records = add32 s'.total_wal_records (length es) }))
          × Loaded name t (replay no_contents es) (at_file path s) s'
    unfolding process_records
    process_records_lem ahead =
        let (s', steps, l) =
          process_all-Loaded {s = at_file path s} es h.plain Tracks-at_file h.separates h.decodes in
        (
          s',
          rw (h.there, Os.attempt_no_faults s.os h.quiet, skip_line_header rest)
              (rw h.reads (rw steps)),
          l,
        )

    open_store_lem :
        (ahead : ℕ) → open_store ahead path s ≡ start_sync (process_records ahead (at_file path s))
    unfolding open_store
    open_store_lem ahead =
        simp (h.not_loaded, open_file_lem path s.os rest h.synced h.there h.quiet)

    -- `Open` of a file succeeds if the entries that are read from it can be decoded by the maps that
    -- they go to and no call of the operating system fails. A registered map then holds what the last
    -- entry of each of its keys says, the records are counted, and the store is open on the file as
    -- it was, a torn record behind the entries included.
    pub open_store-Restored :
        (ahead : ℕ)
        → ((open_store ahead path s).0 ≡ ok tt)
          × Restored path rest es name t s (open_store ahead path s).1
    open_store-Restored ahead =
        let (s', steps, l) = process_records_lem ahead in
        rw (open_store_lem ahead) (
          rw steps (
            refl,
            record {
              tracks = record {
                pm = l.tracks.pm;
                registered = l.tracks.registered;
                typed = l.tracks.typed;
                prefixed = l.tracks.prefixed;
                clean = l.tracks.clean;
                holds = l.tracks.holds;
              };
              is_loaded = refl;
              handle =
                  ap (λ (x : Store). x.f) l.keeps
                  ∙ ap at (sym (ap (λ (x : Store). x.path) l.keeps));
              no_faults = ap (λ (x : Store). x.os.faults) l.keeps ∙ h.quiet;
              synced = h.synced;
              stands = ap (λ (x : Store). x.os.files x.path) l.keeps ∙ h.there;
              counted = ap (λ (x : Store). add32 x.total_wal_records (length es)) l.keeps;
              at_path = ap (λ (x : Store). x.path) l.keeps;
            },
          ))
