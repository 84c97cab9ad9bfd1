-- ===== src/Shrink/Windows.antt =====
-- The steps of `Shrink` between and beside the windows in which other goroutines work.
use mathlib.Core.Path.{subst, subst₂}
use mathlib.Core.List.{map-append}
use go_persist.Base.{ℕ, ◌%◌, ◌≡◌, ◌≢◌, refl, sym, ap, ◌∙◌, some, List, ◌++◌, Bytes, none, codes}
use go_persist.Env.XsyncMap.{XsyncMap}
use go_persist.Env.Json.{Json}
use go_persist.Env.Os.{at}
use go_persist.Record.Entry.{Entry, line_bytes}
use go_persist.Shrink.{Window, Shrinking, tmp_path}
use go_persist.Shrink.Contents.{All-lookup}
use go_persist.Shrink.Compacting.{Compacting}
use go_persist.Shrink.Steps.{HaveText, orphan_text}
use go_persist.Shrink.MapPass.{MapsHaveText}
use go_persist.Shrink.Work.{Orphans, Registered, Shared, Work, Work-Beside, lines}
use go_persist.State.{Store}
use go_persist.Wal.{int32_mod}

module _ ⦃maps : XsyncMap⦄ ⦃json : Json⦄ where
  open maps use {range, lookup-range, range-Distinct}
  open json use {marshal}

  -- A run of the other goroutines: `es w` is what they have written in the window `w`.
  abbrev pub Busy : (Window → List Entry) → (Window → Store → Store) → Type 0
  Busy es others = (w : Window) (s : Store) → Shared s → Work s (es w) (others w s)

  -- The temporary file of the log `home` holds `c`, and `n` records are counted; the records `p` are
  -- to be drained.
  pub record Ready (home c : Bytes) (n : ℕ) (p : List Entry) (t : Shrinking) : Type 0 where
    pub shared : Shared t.base
    pub synced : ℕ
    pub there : t.base.os.files (tmp_path t.base) ≡ some (record { content = c; synced = synced })
    pub counted : t.counter ≡ n % int32_mod
    pub pending : t.base.pending_records ≡ lines p
    pub at_home : t.base.path ≡ home

  pub Ready-at :
      {home c c' : Bytes} {n n' : ℕ} {p : List Entry} {t : Shrinking}
      → c ≡ c'
      → n ≡ n'
      → Ready home c n p t
      → Ready home c' n' p t
  Ready-at {home} {p = p} {t = t} e f r = subst₂ (λ c n. Ready home c n p t) e f r

  pub Shared-Ready :
      {s : Store} {home c : Bytes} {n : ℕ} {p : List Entry} {t : Shrinking}
      → Shared s
      → s.pending_records ≡ lines p
      → s.path ≡ home
      → Compacting s c n t
      → Ready home c n p t
  Shared-Ready {t = t} shared pending at_home h = record {
    shared = record {
      is_loaded = ap (λ (x : Store). x.loaded) h.kept ∙ shared.is_loaded;
      is_shrinking = ap (λ (x : Store). x.shrinking) h.kept ∙ shared.is_shrinking;
      open_at =
          ap (λ (x : Store). x.f) h.kept
          ∙ shared.open_at
          ∙ ap (λ (x : Store). at x.path) (sym h.kept);
      log = shared.log;
      there = ap (λ (x : Store). t.base.os.files x.path) h.kept ∙ h.log_kept ∙ shared.there;
      quiet = h.quiet;
      orphans = subst Orphans (sym (ap (λ (x : Store). x.orphan_records) h.kept)) shared.orphans;
      registered =
          subst Registered (sym (ap (λ (x : Store). x.persist_maps) h.kept)) shared.registered;
    };
    synced = h.synced;
    there = h.there;
    counted = h.counted;
    pending = ap (λ (x : Store). x.pending_records) h.kept ∙ pending;
    at_home = ap (λ (x : Store). x.path) h.kept ∙ at_home;
  }

  module _ {home c : Bytes} {n : ℕ} {p : List Entry} {t : Shrinking} (r : Ready home c n p t) where
    pub Ready-Compacting : Compacting t.base c n t
    Ready-Compacting = record {
      synced = r.synced;
      there = r.there;
      quiet = r.shared.quiet;
      kept = refl;
      counted = r.counted;
      log_kept = refl;
    }

    -- After a step of `Shrink` on its own file.
    pub Compacting-Ready :
        {c' : Bytes} {n' : ℕ} {t' : Shrinking} → Compacting t.base c' n' t' → Ready home c' n' p t'
    Compacting-Ready = Shared-Ready r.shared r.pending r.at_home

    -- After a window.
    pub Work-Ready :
        {es : List Entry} {s' : Store}
        → Work t.base es s'
        → Ready home c n (p ++ es) (record t { base = s' })
    Work-Ready {es} {s'} work =
        let b = Work-Beside r.shared work in
        record {
          shared = b.shared;
          synced = r.synced;
          there =
              ap (λ (name : Bytes). s'.os.files (name ++ codes ".tmp")) b.same_path
              ∙ b.tmp_kept
              ∙ r.there;
          counted = r.counted;
          pending =
              b.captured
              ∙ ap (λ (l : List Bytes). l ++ lines es) r.pending
              ∙ sym (map-append line_bytes p es);
          at_home = b.same_path ∙ r.at_home;
        }

  module _ {s : Store} (h : Shared s) where
    pub orphans-HaveText : HaveText orphan_text (range s.orphan_records)
    orphans-HaveText =
        All-lookup (λ e. orphan_text e.1 ≢ none) (range s.orphan_records)
          (range-Distinct s.orphan_records)
          (λ k v there. h.orphans k v (sym (lookup-range s.orphan_records k) ∙ there))

    pub maps-HaveText : MapsHaveText (range s.persist_maps)
    maps-HaveText =
        All-lookup (λ e. HaveText marshal (range e.1.data_map)) (range s.persist_maps)
          (range-Distinct s.persist_maps)
          (λ name pm named.
            All-lookup (λ e. marshal e.1 ≢ none) (range pm.data_map) (range-Distinct pm.data_map)
              (λ k v there.
                h.registered name pm (sym (lookup-range s.persist_maps name) ∙ named) k v
                  (sym (lookup-range pm.data_map k) ∙ there)))
