-- ===== src/Wal/Effects.antt =====
-- What a successful write leaves in the file, and what the records of a log stand for.
use go_persist.Base.{
  ℕ, ◌≡◌, refl, sym, ap, ◌∙◌, true, Option, none, some, List, [], ◌∷◌, ◌++◌, Bytes, All, All-append,
  append_assoc, equal, if◌then◌else◌,
}
use go_persist.Env.XsyncMap.{XsyncMap}
use go_persist.Env.Json.{Json}
use go_persist.Env.Os
use go_persist.Env.Os.{Os, File, Handle, at}
use go_persist.Key.{validate_key}
use go_persist.Record.{buffer_size}
use go_persist.Record.Entry.{Entry, set, delete, line_bytes, log_bytes, IsReadable}
use go_persist.Record.Damage.{log_bytes-concat}
use go_persist.Result.{ok}
use go_persist.State.{Store}
use go_persist.Wal.{write, delete_key, wal_header, count_record, add32}

-- The raw value that each key has after the entries of a log, last write first.
abbrev pub Contents : Type 0
Contents = Bytes → Option Bytes

abbrev pub apply : Entry → Contents → Contents
apply (set k v) m j = if equal k j then some v else m j
apply (delete k) m j = if equal k j then none else m j

unfoldable pub replay : Contents → List Entry → Contents
replay m [] = m
replay m (e ∷ es) = replay (apply e m) es

pub replay-append :
    (m : Contents) (es fs : List Entry) → replay m (es ++ fs) ≡ replay (replay m es) fs
unfolding replay
replay-append m [] fs = refl
replay-append m (e ∷ es) fs = replay-append (apply e m) es fs

module _ ⦃maps : XsyncMap⦄ ⦃json : Json⦄ where
  open json use {Value, marshal}

  -- The store is open, no call will fail, and its file holds the entries `es`.
  pub record HasLog (s : Store) (es : List Entry) : Type 0 where
    pub is_loaded : s.loaded ≡ true
    pub handle : s.f ≡ at s.path
    pub no_faults : s.os.faults ≡ []
    pub synced : ℕ
    pub stands :
        s.os.files s.path ≡ some (record { content = wal_header ++ log_bytes es; synced = synced })
    pub readable : All (IsReadable buffer_size) es

  pub HasLog-orphans :
      {s : Store} {es : List Entry} {orphans : maps.Map Value}
      → HasLog s es
      → HasLog (record s { orphan_records = orphans }) es
  HasLog-orphans h = record {
    is_loaded = h.is_loaded;
    handle = h.handle;
    no_faults = h.no_faults;
    synced = h.synced;
    stands = h.stands;
    readable = h.readable;
  }

  -- The store after the bytes of `e` have been appended to its file and counted.
  unfoldable pub logged : Entry → Store → Store
  logged e s =
      let (_, os') = Os.write s.f (line_bytes e) s.os in
      count_record (line_bytes e) (record s { os = os' })

  module _ {s : Store} {es : List Entry} (h : HasLog s es) where
    written : (b : Bytes) → (Os.write s.f b s.os).0 ≡ true
    written b = rw h.handle (rw (Os.write_no_faults s.path b s.os h.stands h.no_faults))

    os-logged :
        (e : Entry)
        → (logged e s).os
          ≡ Os.put s.path
              (record { content = (wal_header ++ log_bytes es) ++ line_bytes e; synced = h.synced })
              s.os
    unfolding logged
    os-logged e =
        rw h.handle (rw (Os.write_no_faults s.path (line_bytes e) s.os h.stands h.no_faults))

    stands-logged :
        (e : Entry)
        → (logged e s).os.files s.path
          ≡ some (record { content = wal_header ++ log_bytes (es ++ e ∷ []); synced = h.synced })
    stands-logged e =
        ap (λ (o : Os). o.files s.path) (os-logged e)
        ∙ Os.files-put_self s.path _ s.os
        ∙ ap (λ (b : Bytes). some (record { content = b; synced = h.synced }))
            (append_assoc wal_header (log_bytes es) (line_bytes e)
              ∙ ap (λ (b : Bytes). wal_header ++ b) (sym (log_bytes-concat es e)))

    -- The store behind a record that has been written.
    abbrev pub behind : Entry → Store
    behind e = record s {
      os =
          Os.put s.path
            (record { content = wal_header ++ log_bytes (es ++ e ∷ []); synced = h.synced }) s.os;
      total_wal_records = add32 s.total_wal_records 1;
      pending_records =
          if s.shrinking then s.pending_records ++ line_bytes e ∷ [] else s.pending_records;
    }

    pub logged_lem : (e : Entry) → logged e s ≡ behind e
    unfolding logged
    logged_lem e =
        ap (λ (o : Os). count_record (line_bytes e) (record s { os = o }))
          (os-logged e
            ∙ ap (λ (b : Bytes). Os.put s.path (record { content = b; synced = h.synced }) s.os)
                (append_assoc wal_header (log_bytes es) (line_bytes e)
                  ∙ ap (λ (b : Bytes). wal_header ++ b) (sym (log_bytes-concat es e))))

    pub logged-HasLog : (e : Entry) → IsReadable buffer_size e → HasLog (logged e s) (es ++ e ∷ [])
    logged-HasLog e fits = record {
      is_loaded = unfold logged in h.is_loaded;
      handle = unfold logged in h.handle;
      no_faults = ap (λ (o : Os). o.faults) (os-logged e) ∙ h.no_faults;
      synced = h.synced;
      stands = unfold logged in stands-logged e;
      readable = All-append (IsReadable buffer_size) es (e ∷ []) h.readable (fits, tt);
    }

    -- A valid key and a value with a JSON form: `write` succeeds and appends one set record.
    pub write_lem :
        (key : Bytes) (v : Value) {line : Bytes}
        → validate_key key ≡ none
        → marshal v ≡ some line
        → write key v s ≡ (ok tt, logged (set key line) s)
    unfolding write logged line_bytes
    write_lem key v valid json_of = rw (h.is_loaded, valid, json_of) (rw (written _))

    -- `Delete` appends one delete record, whatever the key, and drops the orphan.
    pub delete_key_lem :
        (key : Bytes)
        → delete_key key s ≡ (
          ok tt,
          record (logged (delete key) s) { orphan_records = maps.delete s.orphan_records key },
        )
    unfolding delete_key logged line_bytes
    delete_key_lem key = rw h.is_loaded (rw (written _))
