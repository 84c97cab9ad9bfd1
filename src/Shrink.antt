-- ===== src/Shrink.antt =====
-- `Shrink` (wal.go).
pub mod Compacting
pub mod Steps
pub mod MapPass
pub mod Work
pub mod Windows
pub mod Drain
pub mod Interleaved
pub mod Swap
pub mod Alone
pub mod Contents
pub mod Durable
pub mod Guarded
pub mod Calls
pub mod Fits
pub mod Used
use go_persist.Base.{
  ℕ, zero, suc, Bool, true, false, Option, none, some, List, [], ◌∷◌, ◌++◌, Bytes, codes,
  if◌then◌else◌,
}
use go_persist.Env.XsyncMap.{XsyncMap}
use go_persist.Env.Json.{Json}
use go_persist.Env.Os
use go_persist.Env.Os.{Os, Handle, at, closed}
use go_persist.PersistMap.{write_records}
use go_persist.Result.{
  Error, not_loaded, shrink_in_progress, io_failed, json_failed, Result, ok, err, panic,
}
use go_persist.State.{PersistMap, Store}
use go_persist.Wal.{add32, wal_header}

-- The places at which `Shrink` holds no lock and other goroutines run.
pub data Window : Type 0 where
  before_create before_orphans before_maps before_sync before_swap : Window
  before_drain before_pending : ℕ → Window

module _ ⦃maps : XsyncMap⦄ ⦃json : Json⦄ where
  open maps use {range}
  open json use {Value, as_string, marshal}

  -- The store, and `recordCounter`.
  pub record Shrinking : Type 0 where
    pub base : Store
    pub counter : ℕ

  abbrev pub Go : Type 0 → Type 0
  Go A = Shrinking → Result A × Shrinking

  abbrev continue : {A B : Type 0} → Result A → (A → Go B) → Go B
  continue (ok a) f t = f a t
  continue (err e) f t = (err e, t)
  continue panic f t = (panic, t)

  infixl 5 ◌>>=◌ ◌>>◌
  abbrev pub ◌>>=◌ : {A B : Type 0} → Go A → (A → Go B) → Go B
  ◌>>=◌ m f t = let (r, t') = m t in continue r f t'

  abbrev pub ◌>>◌ : {B : Type 0} → Go (Unit {0}) → Go B → Go B
  m >> k = m >>= λ _. k

  abbrev done : Go (Unit {0})
  done t = (ok tt, t)

  abbrev fail : Error → Go (Unit {0})
  fail e t = (err e, t)

  abbrev modify : (Store → Store) → Go (Unit {0})
  modify f t = (ok tt, record t { base = f t.base })

  abbrev count : ℕ → Go (Unit {0})
  count n t = (ok tt, record t { counter = add32 t.counter n })

  -- `stopShrinking`
  abbrev stopped : Store → Store
  stopped s = record s { shrinking = false }

  -- A call on the files, with what is done to the store where it fails.
  abbrev settle_call : Bool → (Store → Store) → Go (Unit {0})
  settle_call true undo t = (ok tt, t)
  settle_call false undo t = (err io_failed, record t { base = undo t.base })

  abbrev call : (Os → Bool × Os) → (Store → Store) → Go (Unit {0})
  call f undo t =
      let (good, os) = f t.base.os in
      settle_call good undo (record t { base = record t.base { os = os } })

  -- `s.path + ".tmp"`
  abbrev pub tmp_path : Store → Bytes
  tmp_path s = s.path ++ codes ".tmp"

  abbrev with_tmp : {A : Type 0} → (Handle → Go A) → Go A
  with_tmp f t = f (at (tmp_path t.base)) t

  -- The text that a value has in the file.
  abbrev pub value_text : Value → Option Bytes → Option Bytes
  value_text v (some text) = some text
  value_text v none = marshal v

  abbrev write_orphan : Bytes → Option Bytes → Go (Unit {0})
  write_orphan key none = modify stopped >> fail json_failed
  write_orphan key (some line) = with_tmp λ w. do
    call (Os.write w (b'S' ∷ b' ' ∷ (key ++ b'\n' ∷ []))) stopped
    call (Os.write w (line ++ b'\n' ∷ [])) stopped
    count 1

  unfoldable pub write_orphans : List (Bytes × Value) → Go (Unit {0})
  write_orphans [] = done
  write_orphans ((key, v) ∷ rest) =
      write_orphan key (value_text v (as_string v)) >> write_orphans rest

  abbrev settle_map : Option Error → ℕ → Go (Unit {0})
  settle_map none n = count n
  settle_map (some e) n = modify stopped >> fail e

  abbrev write_map : PersistMap → Go (Unit {0})
  write_map pm t =
      let (n, e, os) = write_records (at (tmp_path t.base)) pm t.base.os in
      settle_map e n (record t { base = record t.base { os = os } })

  unfoldable pub write_maps : List (Bytes × PersistMap) → Go (Unit {0})
  unfolding write_records
  write_maps [] = done
  write_maps ((name, pm) ∷ rest) = write_map pm >> write_maps rest

  unfoldable pub write_pending : (Store → Store) → List Bytes → Go (Unit {0})
  write_pending undo [] = done
  write_pending undo (b ∷ rest) = do
    with_tmp λ w. call (Os.write w b) undo
    count 1
    write_pending undo rest

  abbrev take_pending : Store → Store
  take_pending s = record s { pending_records = [] }

  -- One round of the loop on what it swapped out; `env` is the rest of the program, which runs
  -- once the lock is given back.
  unfoldable pub drain_round : (Store → Store) → Go (Unit {0}) → List Bytes → Go (Unit {0})
  drain_round env again [] t = (ok tt, t)
  drain_round env again (b ∷ bs) t =
      (do
        modify take_pending
        modify env
        write_pending stopped (b ∷ bs)
        with_tmp λ w. call (Os.sync w) stopped
        again)
        t

  -- Under the last lock: what is still pending, then the swap of the files.
  abbrev keep_store : Store → Store
  keep_store s = s

  abbrev close_file : Store → Store
  close_file s = record s { f = closed }

  abbrev rename_tmp : Go (Unit {0})
  rename_tmp t = call (Os.rename (tmp_path t.base) t.base.path) keep_store t

  abbrev reopen : Go (Unit {0})
  reopen t = call (Os.open_append t.base.path) keep_store t

  abbrev install : Go (Unit {0})
  install t = (
    ok tt,
    record t { base = record t.base { f = at t.base.path; total_wal_records = t.counter } },
  )

  abbrev write_last : Go (Unit {0})
  write_last t = write_pending keep_store t.base.pending_records t

  -- The temporary file takes the place of the log.
  unfoldable pub swap : Go (Unit {0})
  swap = do
    call Os.attempt keep_store
    modify close_file
    call Os.attempt keep_store
    rename_tmp
    reopen
    install

  unfoldable pub finish : Go (Unit {0})
  unfolding swap
  finish = do
    modify stopped
    write_last
    modify take_pending
    with_tmp λ w. call (Os.sync w) keep_store
    swap

  abbrev snapshot_orphans : Go (Unit {0})
  snapshot_orphans t = write_orphans (range t.base.orphan_records) t

  abbrev snapshot_maps : Go (Unit {0})
  snapshot_maps t = write_maps (range t.base.persist_maps) t

  abbrev create_tmp : Go (Unit {0})
  create_tmp t = call (Os.create (tmp_path t.base)) keep_store t

  module _ (others : Window → Store → Store) where
    -- The loop that swaps `pendingRecords` out, in `rounds` rounds at most.
    unfoldable pub drain : ℕ → Go (Unit {0})
    drain zero t = (ok tt, t)
    drain (suc rounds) t =
        let s = others (before_drain rounds) t.base in
        drain_round (others (before_pending rounds)) (drain rounds) s.pending_records
          (record t { base = s })

    -- Up to the header of the temporary file.
    unfoldable pub prepare : Go (Unit {0})
    prepare = do
      modify (others before_create)
      create_tmp
      with_tmp λ w. call (Os.write w wal_header) stopped

    -- The passes over the orphans and the maps, and the first `Sync`.
    unfoldable pub snapshot : Go (Unit {0})
    snapshot = do
      modify (others before_orphans)
      snapshot_orphans
      modify (others before_maps)
      snapshot_maps
      modify (others before_sync)
      with_tmp λ w. call (Os.sync w) stopped

    -- Behind the first lock.
    unfoldable pub compact : Go (Unit {0})
    unfolding prepare snapshot
    compact = do prepare; snapshot; drain 3; modify (others before_swap); finish

    abbrev shrink_result : Result (Unit {0}) × Shrinking → Result (Unit {0}) × Store
    shrink_result (r, t) = (r, t.base)

    -- `Shrink`
    unfoldable pub shrink : Store → Result (Unit {0}) × Store
    shrink s =
        if s.loaded
        then (if s.shrinking
            then (err shrink_in_progress, s)
            else shrink_result (
                compact (record {
                  base = record s { shrinking = true; pending_records = [] };
                  counter = 0;
                })))
        else (err not_loaded, s)
