-- ===== src/Wal/Outcomes.antt =====
-- `write` and `Store.Delete` when calls of the operating system may fail.
use go_persist.Base.{
  ℕ, ◌≡◌, refl, ap, ◌⊎◌, inl, inr, Bool, true, false, none, some, [], ◌∷◌, ◌++◌, if◌then◌else◌,
  Bytes, take, Bool-cases, Option-cases,
}
use go_persist.Env.XsyncMap.{XsyncMap}
use go_persist.Env.Json.{Json}
use go_persist.Env.Os
use go_persist.Env.Os.{Os, File, Handle, at}
use go_persist.Key.{validate_key}
use go_persist.Record.{set_record}
use go_persist.Result.{Error, not_loaded, io_failed, json_failed, Result, ok, err}
use go_persist.State.{Store}
use go_persist.Wal.{write, write_line, or_io_failed, count_record, add32}

-- All bytes are appended, or a call fails behind some of them.
abbrev Appends : Bytes → Bytes → Os → Bool × Os → Type 0
Appends name b os x =
    ((x.0 ≡ true) × (Os.content_of (x.1.files name) ≡ Os.content_of (os.files name) ++ b))
    ⊎ ((x.0 ≡ false)
        × ((n : ℕ) × (Os.content_of (x.1.files name) ≡ Os.content_of (os.files name) ++ take n b)))

write-Appends :
    (h : Handle) (name b : Bytes) (os : Os) {file : File}
    → h ≡ at name
    → os.files name ≡ some file
    → Appends name b os (Os.write h b os)
unfolding Os.write
write-Appends h name b os {file} open_at there =
    rw open_at (elim (Option-cases (Os.next_fault os.faults)) [
      | inl quiet ↦ rw (there, quiet) (inl (refl, ap Os.content_of (Os.files-put_self name _ os)))
      | inr (n, fault) ↦
          rw (there, fault) (inr (refl, (n, ap Os.content_of (Os.files-put_self name _ os))))
    ])

module _ ⦃maps : XsyncMap⦄ ⦃json : Json⦄ where
  open maps use {delete}
  open json use {Value, marshal}

  abbrev pub content : Store → Bytes → Bytes
  content s name = Os.content_of (s.os.files name)

  -- The record `b` is in the file and is counted, and captured while Shrink runs. Nothing else has
  -- changed.
  abbrev pub Logs : Bytes → Bytes → Store → Result (Unit {0}) × Store → Type 0
  Logs name b s x =
      (x.0 ≡ ok tt)
      × (content x.1 name ≡ content s name ++ b)
      × (x.1.total_wal_records ≡ add32 s.total_wal_records 1)
      × (x.1.pending_records
          ≡ (if s.shrinking then s.pending_records ++ b ∷ [] else s.pending_records))
      × (x.1 ≡ record s {
        os = x.1.os;
        total_wal_records = x.1.total_wal_records;
        pending_records = x.1.pending_records;
      })

  -- The file system has failed behind some bytes of the record `b`. Nothing but the files has changed.
  abbrev pub Breaks : Bytes → Bytes → Store → Result (Unit {0}) × Store → Type 0
  Breaks name b s x =
      (x.0 ≡ err io_failed)
      × ((n : ℕ) × (content x.1 name ≡ content s name ++ take n b))
      × (x.1 ≡ record s { os = x.1.os })

  -- Why `write` does not come to the file.
  abbrev pub Rejected : Bytes → Value → Store → Error → Type 0
  Rejected key v s e =
      ((s.loaded ≡ false) × (e ≡ not_loaded))
      ⊎ ((validate_key key ≡ some e) ⊎ ((marshal v ≡ none) × (e ≡ json_failed)))

  module _ (key : Bytes) (s : Store) where
    write_not_loaded : (v : Value) → s.loaded ≡ false → write key v s ≡ (err not_loaded, s)
    unfolding write
    write_not_loaded v e = simp e

    write_invalid :
        (v : Value) {x : Error}
        → s.loaded ≡ true
        → validate_key key ≡ some x
        → write key v s ≡ (err x, s)
    unfolding write
    write_invalid v loaded e = simp (loaded, e)

    write_not_marshalled :
        (v : Value)
        → s.loaded ≡ true
        → validate_key key ≡ none
        → marshal v ≡ none
        → write key v s ≡ (err json_failed, s)
    unfolding write
    write_not_marshalled v loaded valid e = simp (loaded, valid, e)

    write-write_line :
        (v : Value) {line : Bytes}
        → s.loaded ≡ true
        → validate_key key ≡ none
        → marshal v ≡ some line
        → write key v s ≡ write_line key (some line) s
    unfolding write
    write-write_line v loaded valid json_of = simp (loaded, valid, json_of)

  module _ (key : Bytes) (s : Store) (name : Bytes) where
    line_outcome :
        (line : Bytes) (x : Bool × Os)
        → Appends name (set_record key line) s.os x
        → Logs name (set_record key line) s (
            or_io_failed x.0
              (count_record (set_record key line) (record s { os = x.1 }))
              (record s { os = x.1 }))
          ⊎ Breaks name (set_record key line) s (
              or_io_failed x.0
                (count_record (set_record key line) (record s { os = x.1 }))
                (record s { os = x.1 }))
    line_outcome line (true, os) (inl (e, all)) = inl (refl, all, refl, refl, refl)
    line_outcome line (true, os) (inr (e, (n, part))) = cc
    line_outcome line (false, os) (inl (e, all)) = cc
    line_outcome line (false, os) (inr (e, (n, part))) = inr (refl, (n, part), refl)

    -- On a handle at an existing file, `write` does one of three things. The key is valid and the
    -- value has a JSON text, it returns nil, and has appended the whole record of the key and this
    -- text, counted it, captured it if a Shrink is running, and changed no other field of the
    -- store. Or the key is valid and the value has a JSON text, it returns the error of the file
    -- system, and has appended a part of this record at most and changed no field of the store. Or
    -- the store is not open, or the key is not valid, or the value has no JSON text, and it
    -- returns the error that says so and has changed nothing, the file included.
    pub write_outcome :
        (v : Value) {file : File}
        → s.f ≡ at name
        → s.os.files name ≡ some file
        → ((line : Bytes) × (marshal v ≡ some line)
            × (validate_key key ≡ none)
            × (Logs name (set_record key line) s (write key v s)
                ⊎ Breaks name (set_record key line) s (write key v s)))
          ⊎ ((e : Error) × Rejected key v s e × (write key v s ≡ (err e, s)))
    write_outcome v open_at there = elim (Bool-cases s.loaded) [
      | inr e ↦ inr (not_loaded, inl (e, refl), write_not_loaded key s v e)
      | inl loaded ↦ elim (Option-cases (validate_key key)) [
        | inr (x, e) ↦ inr (x, inr (inl e), write_invalid key s v loaded e)
        | inl valid ↦ elim (Option-cases (marshal v)) [
          | inl e ↦
              inr (json_failed, inr (inr (e, refl)), write_not_marshalled key s v loaded valid e)
          | inr (line, json_of) ↦ rw (write-write_line key s v loaded valid json_of) (
              inl (
                line,
                json_of,
                valid,
                line_outcome line _
                    (write-Appends s.f name (set_record key line) s.os open_at there),
              ))
        ]
      ]
    ]

  -- `write` that succeeds finds the store open, and leaves it so.
  loaded-or_io_failed :
      (good : Bool) (done failed : Store)
      → done.loaded ≡ true
      → failed.loaded ≡ true
      → (or_io_failed good done failed).1.loaded ≡ true
  loaded-or_io_failed true done failed h k = h
  loaded-or_io_failed false done failed h k = k

  pub write_loaded :
      (key : Bytes) (v : Value) (s : Store)
      → (write key v s).0 ≡ ok tt
      → (write key v s).1.loaded ≡ true
  write_loaded key v s success = elim (Bool-cases s.loaded) [
    | inr e ↦ cc (rw (write_not_loaded key s v e) at success)
    | inl loaded ↦ elim (Option-cases (validate_key key)) [
      | inr (x, e) ↦ cc (rw (write_invalid key s v loaded e) at success)
      | inl valid ↦ elim (Option-cases (marshal v)) [
        | inl e ↦ cc (rw (write_not_marshalled key s v loaded valid e) at success)
        | inr (line, json_of) ↦
            rw (write-write_line key s v loaded valid json_of)
              (loaded-or_io_failed (Os.write s.f (set_record key line) s.os).0 _ _ loaded loaded)
      ]
    ]
  ]
