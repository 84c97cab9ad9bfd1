-- ===== src/PersistMap/History/Disk.antt =====
-- What a file holds for the next process, and the `New`, `Map` and `Open` that it begins with.
use mathlib.Core.Path.{subst}
use go_persist.Base.{ℕ, ◌≡◌, refl, sym, none, some, [], Bytes, equal_refl}
use go_persist.Env.Os.{Os}
use go_persist.Env.XsyncMap.{XsyncMap}
use go_persist.Env.Json.{Json}
use go_persist.Loading.Create.{created, open_store-created, with_map, with_map-Tracks}
use go_persist.Loading.Recovery.{Openable, Opened, open_store-Opened}
use go_persist.Loading.Routing.{NoColon}
use go_persist.Loading.{new_store, open_store}
use go_persist.PersistMap.History.{View}
use go_persist.PersistMap.History.Reopen.{Holding, open_store-Holding}
use go_persist.Record.Entry.{log_bytes}
use go_persist.Result.{Result, ok}
use go_persist.State.{PersistMap, Store}
use go_persist.Wal.Effects.{replay}

module _ ⦃maps : XsyncMap⦄ ⦃json : Json⦄ where
  open maps use {load}
  open json use {GoType}

  module _ (t : GoType) (name path : Bytes) where
    -- The map that a process leaves when it has synced.
    pub record Left (m : View) (p : PersistMap × Store) : Type 0 where
      pub holding : Holding name t path m p.0 p.1
      pub clean : (key : Bytes) → load p.0.dirty key ≡ none

    -- The next process finds no file, or what a process has left of a map that holds `m`; no call of
    -- the operating system will fail.
    pub data OnDisk : View → Os → Type 0 where
      no_file : {os : Os} → os.files path ≡ none → os.faults ≡ [] → OnDisk (λ key. none) os
      left :
          {m : View} {p : PersistMap × Store} {os : Os}
          → Left m p
          → os.files path ≡ p.1.os.files path
          → os.faults ≡ []
          → OnDisk m os

    -- `Open` succeeds, and the registered map holds `m`.
    abbrev pub OpensTo : View → Result (Unit {0}) × Store → Type 0
    OpensTo m r =
        (r.0 ≡ ok tt)
        × ((pm : PersistMap) × (load r.1.persist_maps name ≡ some pm)
            × Holding name t path m pm r.1)

    module _ (plain : NoColon name) (ahead : ℕ) where
      first-Openable :
          (os : Os)
          → os.faults ≡ []
          → Openable path [] name t (record (with_map t name os) { os = created path os })
      unfolding new_store log_bytes
      first-Openable os quiet = record {
        not_loaded = refl;
        synced = 13;
        there = rw (equal_refl path);
        quiet = quiet;
        readable = tt;
        plain = plain;
        tracks = with_map-Tracks t name (created path os);
        separates = tt;
        decodes = tt;
      }

      Opened-Holding :
          {s s' : Store}
          → (o : Opened path [] name t s s') → Holding name t path (λ key. none) o.tracks.pm s'
      unfolding replay
      Opened-Holding o = record {
        durable = record {
          entries = [];
          log = o.has_log;
          in_log = λ key clean. o.tracks.holds key;
          values = λ key v there. cc (o.tracks.holds key, there);
          dirty_fits = λ key dirty. absurd (dirty (o.tracks.clean key));
        };
        own = tt;
        typed = o.tracks.typed;
        prefixed = o.tracks.prefixed;
        at_path = o.at_path;
        holds = o.tracks.holds;
      }

      open_store-no_file :
          (os : Os)
          → os.files path ≡ none
          → os.faults ≡ []
          → OpensTo (λ key. none) (open_store ahead path (with_map t name os))
      unfolding new_store
      open_store-no_file os missing quiet =
          let (success, opened) =
            open_store-Opened path [] (record (with_map t name os) { os = created path os })
              (first-Openable os quiet) ahead in
          subst (OpensTo (λ key. none))
            (sym (open_store-created ahead path (with_map t name os) refl missing quiet))
            (success, (opened.tracks.pm, opened.tracks.registered, Opened-Holding opened))

      pub open_store-OnDisk :
          {m : View} {os : Os}
          → OnDisk m os
          → OpensTo m (open_store ahead path (with_map t name os))
      open_store-OnDisk {os = os} (no_file missing quiet) = open_store-no_file os missing quiet
      open_store-OnDisk {os = os} (left l copied quiet) =
          open_store-Holding l.holding (with_map t name os) ahead plain l.clean
            (unfold new_store in refl) (unfold new_store in quiet) (unfold new_store in copied)
            (with_map-Tracks t name os)
