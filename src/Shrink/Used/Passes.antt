-- ===== src/Shrink/Used/Passes.antt =====
-- What the passes of `Shrink` find of a map that is in use.
use mathlib.Core.Path.{subst}
use go_persist.Base.{
  ◌≡◌, refl, sym, ap, ◌∙◌, Option, none, List, [], ◌∷◌, ◌++◌, Bytes, All, All-append, append_assoc,
}
use go_persist.Env.XsyncMap.{XsyncMap}
use go_persist.Env.Json.{Json}
use go_persist.Loading.Routing.{full_key}
use go_persist.PersistMap.Durable.{InLogs, no_contents, decoded}
use go_persist.PersistMap.History.{Call, View, Admissible}
use go_persist.Record.{buffer_size}
use go_persist.Record.Entry.{Entry, IsReadable}
use go_persist.Shrink.Compacting.{Compacting}
use go_persist.Shrink.Contents.{text_or}
use go_persist.Shrink.Durable.{registered-text, orphans-text, decoded-text, full_key-prefix}
use go_persist.Shrink.Fits.{range-IsReadable, maps-IsReadable}
use go_persist.Shrink.Guarded.{Guard}
use go_persist.Shrink.Guarded.Phases.{Phases, orphan_entries, all_map_entries}
use go_persist.Shrink.Steps.{orphan_text}
use go_persist.Shrink.Used.{HasLog-as, using, Using, Using-as}
use go_persist.Shrink.Used.Calls.{using-Continues}
use go_persist.Shrink.Windows.{orphans-HaveText, maps-HaveText}
use go_persist.Shrink.Work.{Shared}
use go_persist.Shrink.{Window, Shrinking, take_pending}
use go_persist.State.{Store}
use go_persist.Wal.Effects.{Contents, HasLog, replay, replay-append}
use go_persist.Wal.Replay.{replay_behind}

module _ ⦃maps : XsyncMap⦄ ⦃json : Json⦄ where
  open maps use {Map, load}
  open json use {GoType, Value, marshal}

  HasLog-Compacting :
      {s : Store} {es : List Entry} {c : Bytes} {n : _} {t : Shrinking}
      → Compacting s c n t
      → HasLog s es
      → HasLog t.base es
  HasLog-Compacting {s} k log =
      HasLog-as log (ap (λ (x : Store). x.loaded) k.kept) (ap (λ (x : Store). x.f) k.kept)
        (ap (λ (x : Store). x.path) k.kept) (k.quiet ∙ sym log.no_faults) k.log_kept

  module _ (name : Bytes) (calls : Window → List Call) (t : GoType) (old : List Entry)
      (m : View) where
    abbrev Owner : List Window → List Entry → Store → Type 0
    Owner = Using name calls t old m

    -- Up to the pass over the maps: the entries found so far say nothing of the map.
    pub record Early (found : List Entry) (ws : List Window) (p : List Entry) (s : Store)
        : Type 0 where
      pub owner : Owner ws p s
      pub apart : (key : Bytes) → replay no_contents found (full_key name key) ≡ none
      pub readable : All (IsReadable buffer_size) found

    -- Behind it: the entries found hold the map, with the records written behind them.
    pub record Late (found : List Entry) (ws : List Window) (p : List Entry) (s : Store)
        : Type 0 where
      pub owner : Owner ws p s
      pub in_log : InLogs owner.map (found ++ p)
      pub readable : All (IsReadable buffer_size) found

    unfoldable Owner-compacting :
        {ws : List Window} {p : List Entry} {s : Store} {c : Bytes} {n : _} {x : Shrinking}
        → Compacting s c n x
        → Owner ws p s
        → Owner ws p x.base
    unfolding Using-as
    Owner-compacting k u =
        Using-as name calls t old m u (HasLog-Compacting k u.durable.log)
          (ap (λ (x : Store). x.persist_maps) k.kept) (ap (λ (x : Store). x.orphan_records) k.kept)

    unfoldable Owner-taken :
        {ws : List Window} {p : List Entry} {s : Store} → Owner ws p s → Owner ws p (take_pending s)
    unfolding Using-as
    Owner-taken u =
        Using-as name calls t old m u (HasLog-as u.durable.log refl refl refl refl refl) refl refl

    orphan_pass :
        (ws : List Window) (p : List Entry) (s : Store)
        → Shared s
        → Early [] ws p s
        → Early (orphan_entries s) ws p s
    orphan_pass ws p s h early = record {
      owner = early.owner;
      apart = λ key.
          orphans-text s (full_key name key) (orphans-HaveText h) (early.owner.tidy.no_orphan key);
      readable = range-IsReadable orphan_text [] s.orphan_records early.owner.tidy.orphans_fit;
    }

    found-InLogs :
        (found : List Entry) (ws : List Window) (p : List Entry) (s : Store)
        → Shared s
        → (early : Early found ws p s) → InLogs early.owner.map ((found ++ all_map_entries s) ++ p)
    found-InLogs found ws p s h early key clean =
        let u = early.owner in
        let pm = u.map in
        let own = u.tidy.named name pm u.registered in
        let all : List Entry = found ++ all_map_entries s in
        let text : replay no_contents all (full_key name key)
            ≡ text_or marshal (load pm.data_map key) none =
          ap (λ (c : Contents). c (full_key name key))
            (replay-append no_contents found (all_map_entries s))
          ∙ registered-text s u.registered u.tidy.named (maps-HaveText h) key
              (replay no_contents found)
          ∙ ap (λ (o : Option Bytes). text_or marshal (load pm.data_map key) o) (early.apart key) in
        replay_behind (decoded pm.value_type) (load pm.data_map key) (pm.prefix ++ key) no_contents
          old all p
          (subst
            (λ (l : List Entry).
              load pm.data_map key
              ≡ decoded pm.value_type (replay no_contents l (pm.prefix ++ key)))
            u.extends (u.durable.in_log key clean))
          (decoded-text pm u.durable.values key (load pm.data_map key) refl
            ∙ ap (decoded pm.value_type)
                (sym text ∙ ap (replay no_contents all) (full_key-prefix name pm key own)))

    map_pass :
        (found : List Entry) (ws : List Window) (p : List Entry) (s : Store)
        → Shared s
        → Early found ws p s
        → Late (found ++ all_map_entries s) ws p s
    map_pass found ws p s h early = record {
      owner = early.owner;
      in_log = found-InLogs found ws p s h early;
      readable =
          All-append (IsReadable buffer_size) found (all_map_entries s) early.readable
            (maps-IsReadable s.persist_maps early.owner.tidy.maps_fit);
    }

    module _ (admissible : (w : Window) → All (Admissible t (name ++ b':' ∷ [])) (calls w)) where
      Early-Guard : (found : List Entry) → Guard (using name calls) (Early found)
      unfolding Owner-compacting Owner-taken
      Early-Guard found = record {
        works = λ w ws p s h e.
            let (fs, work, (u, _)) = using-Continues admissible w e.owner h in
            (fs, work, record { owner = u; apart = e.apart; readable = e.readable });
        compacts = λ k e. record {
          owner = Owner-compacting k e.owner;
          apart = e.apart;
          readable = e.readable;
        };
        takes = λ e. record { owner = Owner-taken e.owner; apart = e.apart; readable = e.readable };
      }

      Late-Guard : (found : List Entry) → Guard (using name calls) (Late found)
      unfolding Owner-compacting Owner-taken Using-as
      Late-Guard found = record {
        works = λ w ws p s h e.
            let (fs, work, (u, logs)) = using-Continues admissible w e.owner h in
            (
              fs,
              work,
              record {
                owner = u;
                in_log =
                    subst (InLogs u.map) (append_assoc found p fs) (logs (found ++ p) e.in_log);
                readable = e.readable;
              },
            );
        compacts = λ k e. record {
          owner = Owner-compacting k e.owner;
          in_log = e.in_log;
          readable = e.readable;
        };
        takes =
            λ e. record { owner = Owner-taken e.owner; in_log = e.in_log; readable = e.readable };
      }

      pub using-Phases : Phases (using name calls) Early Late
      using-Phases = record {
        early = Early-Guard;
        late = Late-Guard;
        orphan_pass = orphan_pass;
        map_pass = map_pass;
      }
