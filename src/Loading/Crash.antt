-- ===== src/Loading/Crash.antt =====
-- Opening a store on what a power failure has left of its file.
use go_persist.Base.{
  ℕ, ◌-◌, ◌≤◌, ◌≡◌, ap, ◌∙◌, false, some, List, [], ◌++◌, Bytes, All, length, length-append, take,
  arith,
}
use mathlib.Core.Path.{subst}
use go_persist.Env.XsyncMap.{XsyncMap}
use go_persist.Env.Json.{Json}
use go_persist.Loading.Dispatch.{Tracks, Decodes, types_of}
use go_persist.Loading.Restore.{Source, Restored, open_store-Restored}
use go_persist.Loading.Routing.{NoColon, Separates}
use go_persist.Loading.{open_store}
use go_persist.PersistMap.Durable.{no_contents}
use go_persist.Record.Cut.{fitting, fitting-All, fitting-append, fitting-prefix, read_file-take}
use go_persist.Record.Entry.{Entry, entry_key, log_bytes, IsReadable}
use go_persist.Record.RoundTrip.{take_append_ge}
use go_persist.Record.{buffer_size}
use go_persist.Result.{ok}
use go_persist.State.{Store}
use go_persist.Wal.{wal_header}

-- A power failure leaves the first `n` bytes of the content.
abbrev pub left_of : ℕ → List Entry → Bytes
left_of n es = take n (wal_header ++ log_bytes es)

module _ ⦃maps : XsyncMap⦄ ⦃json : Json⦄ where
  open json use {GoType}

  -- A store that is not open yet, with an empty map registered; and at `path` what a power failure
  -- has left of a file with the entries `es`, then `later`, the first of which were on the disk.
  pub record Crashed (path : Bytes) (n : ℕ) (es later : List Entry) (name : Bytes) (t : GoType)
      (s : Store) : Type 0 where
    pub on_disk : length (wal_header ++ log_bytes es) ≤ n
    pub not_loaded : s.loaded ≡ false
    pub synced : ℕ
    pub there :
        s.os.files path ≡ some (record { content = left_of n (es ++ later); synced = synced })
    pub quiet : s.os.faults ≡ []
    pub readable : All (IsReadable buffer_size) (es ++ later)
    pub plain : NoColon name
    pub tracks : Tracks name t no_contents s
    pub separates : All (λ e. Separates name (entry_key e)) (es ++ later)
    pub decodes : All (Decodes (types_of s)) (es ++ later)

  module _ (path : Bytes) (n : ℕ) (es later : List Entry) {name : Bytes} {t : GoType} (s : Store)
      (h : Crashed path n es later name t s) where
    -- How many bytes of the log are left.
    abbrev log_left : ℕ
    log_left = n - length wal_header

    left_form : left_of n (es ++ later) ≡ wal_header ++ take log_left (log_bytes (es ++ later))
    left_form =
        take_append_ge n wal_header (log_bytes (es ++ later))
          (omega (arith, h.on_disk, length-append {0} wal_header (log_bytes es)))

    survivors :
        fitting log_left (es ++ later) ≡ es ++ fitting (log_left - length (log_bytes es)) later
    survivors =
        fitting-append log_left es later
          (omega (arith, h.on_disk, length-append {0} wal_header (log_bytes es)))

    Crashed-Source :
        Source path
          (take log_left (log_bytes (es ++ later)))
          (fitting log_left (es ++ later))
          name
          t
          s
    Crashed-Source = record {
      not_loaded = h.not_loaded;
      synced = h.synced;
      there =
          h.there ∙ ap (λ (b : Bytes). some (record { content = b; synced = h.synced })) left_form;
      quiet = h.quiet;
      reads = read_file-take log_left (es ++ later) h.readable;
      plain = h.plain;
      tracks = h.tracks;
      separates =
          fitting-All (λ e. Separates name (entry_key e)) log_left (es ++ later) h.separates;
      decodes = fitting-All (Decodes (types_of s)) log_left (es ++ later) h.decodes;
    }

    -- `Open` after a power failure that has only cut the file: what is left is the first `n` bytes
    -- of the header and a log that can be read back, no fewer than the header and the entries `es`
    -- that were on the disk, and nothing stands behind them. The store is not open, an empty map
    -- with no dirty key is registered under `name`, with the name and a colon as its prefix;
    -- `name` holds no colon, and is not empty unless every key of the log holds a colon; the
    -- registered maps can decode the entries that go to them, and no call of the operating system
    -- fails now. `Open` succeeds, and the map holds what the log stood for after `es` and some of
    -- the later entries, in their order, from the first one on.
    pub open_store-Crashed :
        (ahead : ℕ)
        → ((open_store ahead path s).0 ≡ ok tt)
          × ((kept lost : List Entry) × (later ≡ kept ++ lost)
              × Restored path
                  (take log_left (log_bytes (es ++ later)))
                  (es ++ kept)
                  name
                  t
                  s
                  (open_store ahead path s).1)
    open_store-Crashed ahead =
        let (success, restored) =
          open_store-Restored path (take log_left (log_bytes (es ++ later)))
            (fitting log_left (es ++ later)) s Crashed-Source ahead in
        let (lost, form) = fitting-prefix (log_left - length (log_bytes es)) later in
        (
          success,
          (
            fitting (log_left - length (log_bytes es)) later,
            lost,
            form,
            subst
                (λ l.
                  Restored path (take log_left (log_bytes (es ++ later))) l name t s
                    (open_store ahead path s).1)
                survivors restored,
          ),
        )
