-- ===== src/Loading/Recovery.antt =====
-- Opening a store on a file that a store has written.
use go_persist.Base.{ℕ, ◌≡◌, false, some, List, [], ◌++◌, Bytes, All, length}
use go_persist.Env.XsyncMap.{XsyncMap}
use go_persist.Env.Json.{Json}
use go_persist.Loading.Dispatch.{Tracks, Decodes, types_of}
use go_persist.Loading.Routing.{NoColon, Separates}
use go_persist.Loading.{open_store}
use go_persist.PersistMap.Durable.{no_contents}
use go_persist.Record.{buffer_size}
use go_persist.Record.Entry.{Entry, entry_key, log_bytes, IsReadable}
use go_persist.Record.RoundTrip.{read_file-log_bytes}
use go_persist.Result.{ok}
use go_persist.State.{Store}
use go_persist.Wal.{wal_header, add32}
use go_persist.Wal.Effects.{replay, HasLog}
use go_persist.Loading.Restore.{Source, open_store-Restored}

module _ ⦃maps : XsyncMap⦄ ⦃json : Json⦄ where
  open json use {GoType}

  -- A source whose file holds the entries and no more, each of which can be read.
  pub record Openable (path : Bytes) (es : List Entry) (name : Bytes) (t : GoType) (s : Store)
      : Type 0 where
    pub not_loaded : s.loaded ≡ false
    pub synced : ℕ
    pub there :
        s.os.files path ≡ some (record { content = wal_header ++ log_bytes es; synced = synced })
    pub quiet : s.os.faults ≡ []
    pub readable : All (IsReadable buffer_size) es
    pub plain : NoColon name
    pub tracks : Tracks name t no_contents s
    pub separates : All (λ e. Separates name (entry_key e)) es
    pub decodes : All (Decodes (types_of s)) es

  -- What `Open` leaves of it: the store can go on to write behind the log.
  pub record Opened (path : Bytes) (es : List Entry) (name : Bytes) (t : GoType) (s s' : Store)
      : Type 0 where
    pub tracks : Tracks name t (replay no_contents es) s'
    pub has_log : HasLog s' es
    pub counted : s'.total_wal_records ≡ add32 s.total_wal_records (length es)
    pub at_path : s'.path ≡ path

  Openable-Source :
      {path : Bytes} {es : List Entry} {name : Bytes} {t : GoType} {s : Store}
      → Openable path es name t s
      → Source path (log_bytes es) es name t s
  Openable-Source {es = es} h = record {
    not_loaded = h.not_loaded;
    synced = h.synced;
    there = h.there;
    quiet = h.quiet;
    reads = read_file-log_bytes es h.readable;
    plain = h.plain;
    tracks = h.tracks;
    separates = h.separates;
    decodes = h.decodes;
  }

  -- `Open` of a file with the header and a log that can be read back. The store is not open, an
  -- empty map with no dirty key is registered under `name`, with the name and a colon as its
  -- prefix; `name` holds no colon, and is not empty unless every key of the log holds a colon;
  -- each entry can be decoded by the registered map that it goes to, if there is one; and no call
  -- of the operating system fails. `Open` succeeds. The map then holds what the last record of
  -- each of its keys says, the records are counted, and the store is open on that log.
  pub open_store-Opened :
      (path : Bytes) (es : List Entry) {name : Bytes} {t : GoType} (s : Store)
      → Openable path es name t s
      → (ahead : ℕ)
      → ((open_store ahead path s).0 ≡ ok tt) × Opened path es name t s (open_store ahead path s).1
  open_store-Opened path es s h ahead =
      let (success, r) = open_store-Restored path (log_bytes es) es s (Openable-Source h) ahead in
      (
        success,
        record {
          tracks = r.tracks;
          has_log = record {
            is_loaded = r.is_loaded;
            handle = r.handle;
            no_faults = r.no_faults;
            synced = r.synced;
            stands = r.stands;
            readable = h.readable;
          };
          counted = r.counted;
          at_path = r.at_path;
        },
      )
