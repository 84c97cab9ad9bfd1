-- ===== src/Shrink/Guarded.antt =====
-- The drain of `Shrink` while other goroutines keep a property of the store.
pub mod Phases
use mathlib.Core.Path.{subst₂}
use go_persist.Base.{
  ℕ, zero, suc, ◌+◌, ◌≡◌, refl, sym, ap, ◌∙◌, false, List, [], ◌∷◌, ◌++◌, Bytes, append_assoc,
  append-nil, length, length-append, arith,
}
use go_persist.Env.XsyncMap.{XsyncMap}
use go_persist.Env.Json.{Json}
use go_persist.Env.Os
use go_persist.Record.Entry.{Entry, log_bytes}
use go_persist.Result.{ok}
use go_persist.Shrink.{
  Window, before_create, before_orphans, before_maps, before_sync, before_swap, before_drain,
  before_pending, Shrinking, Go, ◌>>◌, call, modify, stopped, with_tmp, snapshot_orphans,
  snapshot_maps, prepare, snapshot, drain, drain_round, finish, compact, shrink, take_pending,
}
use go_persist.Shrink.Alone.{shrink_runs}
use go_persist.Shrink.Compacting.{Compacting, then_ok, log_bytes-append}
use go_persist.Shrink.Drain.{round_lem, take-Ready}
use go_persist.Shrink.Interleaved.{begun, prepare-Ready}
use go_persist.Shrink.Steps.{entries_of, orphan_text, write_orphans-Reaches}
use go_persist.Shrink.MapPass.{map_entries, write_maps-Reaches}
use go_persist.Shrink.Swap.{sync-Reaches, Swapped, Swapped-at, finish-Swapped}
use go_persist.Shrink.Windows.{
  Ready, Ready-at, Ready-Compacting, Compacting-Ready, Work-Ready, orphans-HaveText, maps-HaveText,
}
use go_persist.Shrink.Work.{Shared, Work, Work-Beside, lines}
use go_persist.State.{Store}
use go_persist.Wal.{wal_header}

module _ ⦃maps : XsyncMap⦄ ⦃json : Json⦄ where
  open maps use {range}

  -- The windows of the drain, with so many rounds at most.
  pub data Rounds : ℕ → List Window → Type 0 where
    no_round : Rounds zero []
    nothing_pending : {rounds : ℕ} → Rounds (suc rounds) (before_drain rounds ∷ [])
    another :
        {rounds : ℕ} {ws : List Window}
        → Rounds rounds ws
        → Rounds (suc rounds) (before_drain rounds ∷ before_pending rounds ∷ ws)

  -- `Inv ws p s` is kept in every window, and by the steps of `Shrink` on its own file and on the
  -- pending records. `ws` are the windows so far, and `p` the records that the other goroutines have
  -- written in them.
  pub record Guard (others : Window → Store → Store)
      (Inv : List Window → List Entry → Store → Type 0) : Type 0 where
    pub works :
        (w : Window) (ws : List Window) (p : List Entry) (s : Store)
        → Shared s
        → Inv ws p s
        → (fs : List Entry) × Work s fs (others w s) × Inv (ws ++ w ∷ []) (p ++ fs) (others w s)
    pub compacts :
        {ws : List Window} {p : List Entry} {s : Store} {c : Bytes} {n : ℕ} {t : Shrinking}
        → Compacting s c n t
        → Inv ws p s
        → Inv ws p t.base
    pub takes :
        {ws : List Window} {p : List Entry} {s : Store} → Inv ws p s → Inv ws p (take_pending s)

  module _ {others : Window → Store → Store} {Inv : List Window → List Entry → Store → Type 0}
      (guard : Guard others Inv) where
    -- A window.
    pub window-Ready :
        (w : Window) {home c : Bytes} {n : ℕ} {ws : List Window} {q p : List Entry} {t : Shrinking}
        → Ready home c n q t
        → Inv ws p t.base
        → (fs : List Entry) × Ready home c n (q ++ fs) (record t { base = others w t.base })
          × Inv (ws ++ w ∷ []) (p ++ fs) (others w t.base)
    window-Ready w {ws = ws} {p = p} {t = t} r held =
        let (fs, work, held') = guard.works w ws p t.base r.shared held in
        (fs, Work-Ready r work, held')

    -- What a run of `m` leaves: it has written `out`, and `left` is pending. It has come to the
    -- windows `vs`, of which `R` holds.
    abbrev Keeps :
        (List Window → Type 0)
        → Bytes
        → Bytes
        → ℕ
        → List Window
        → List Entry
        → Go (Unit {0})
        → Shrinking
        → Type 0
    Keeps R home c n ws p m t =
        (vs : List Window) × R vs
        × ((out left : List Entry) × ((t' : Shrinking) × (m t ≡ (ok tt, t'))
              × Ready home (c ++ log_bytes out) (n + length out) left t'
              × Inv (ws ++ vs) ((p ++ out) ++ left) t'.base))

    Inv-at :
        {ws ws' : List Window} {p p' : List Entry} {s : Store}
        → ws ≡ ws'
        → p ≡ p'
        → Inv ws p s
        → Inv ws' p' s
    Inv-at {s = s} f e = subst₂ (λ v l. Inv v l s) f e

    round-Keeps :
        (rounds : ℕ) {home c : Bytes} {n : ℕ} {t : Shrinking} (ws : List Window) (p q : List Entry)
        → Ready home c n q t
        → Inv ws (p ++ q) t.base
        → ((c' : Bytes) (n' : ℕ) (ws' : List Window) (p' q' : List Entry) (t' : Shrinking)
            → Ready home c' n' q' t'
            → Inv ws' (p' ++ q') t'.base
            → Keeps (Rounds rounds) home c' n' ws' p' (drain others rounds) t')
        → Keeps
            (λ vs. Rounds (suc rounds) (before_drain rounds ∷ vs))
            home
            c
            n
            ws
            p
            (drain_round (others (before_pending rounds)) (drain others rounds) (lines q))
            t
    unfolding drain_round log_bytes
    round-Keeps rounds {home} {c} {n} {t} ws p [] r held later = (
      [],
      nothing_pending,
      (
        [],
        [],
        (
          t,
          refl,
          Ready-at (sym (append-nil c)) (omega arith) r,
          Inv-at (sym (append-nil ws)) (ap (λ (l : List Entry). l ++ []) (sym (append-nil p))) held,
        ),
      ),
    )
    round-Keeps rounds {home} {c} {n} {t} ws p (e ∷ q) r held later =
        let w : Window = before_pending rounds in
        let (fs, work, held₂) =
          guard.works w ws (p ++ e ∷ q) (take_pending t.base) (take-Ready r).shared
            (guard.takes held) in
        let (t₄, e₄, r₄, h₄) = round_lem (others w) (drain others rounds) e q r work in
        let (vs, last, (out, left, (t₅, e₅, r₅, held₅))) =
          later (c ++ log_bytes (e ∷ q)) (n + length (e ∷ q)) (ws ++ w ∷ []) (p ++ e ∷ q) fs t₄ r₄
            (guard.compacts h₄ held₂) in
        (
          w ∷ vs,
          another last,
          (
            (e ∷ q) ++ out,
            left,
            (
              t₅,
              e₄ ∙ e₅,
              Ready-at
                  (append_assoc c (log_bytes (e ∷ q)) (log_bytes out)
                    ∙ ap (λ (b : Bytes). c ++ b) (sym (log_bytes-append (e ∷ q) out)))
                  (omega (arith, length-append {0} q out)) r₅,
              Inv-at (append_assoc ws (w ∷ []) vs)
                  (ap (λ (l : List Entry). l ++ left) (append_assoc p (e ∷ q) out)) held₅,
            ),
          ),
        )

    pub drain-Keeps :
        (rounds : ℕ) {home c : Bytes} {n : ℕ} {t : Shrinking} (ws : List Window) (p q : List Entry)
        → Ready home c n q t
        → Inv ws (p ++ q) t.base
        → Keeps (Rounds rounds) home c n ws p (drain others rounds) t
    unfolding drain log_bytes
    drain-Keeps zero {c = c} {t = t} ws p q r held = (
      [],
      no_round,
      (
        [],
        q,
        (
          t,
          refl,
          Ready-at (sym (append-nil c)) (omega arith) r,
          Inv-at (sym (append-nil ws)) (ap (λ (l : List Entry). l ++ q) (sym (append-nil p))) held,
        ),
      ),
    )
    drain-Keeps (suc rounds) {home} {c} {n} {t} ws p q r held =
        let w : Window = before_drain rounds in
        let (fs, r₁, held₁) = window-Ready w r held in
        let t₁ : Shrinking = record t { base = others w t.base } in
        let (vs, last, (out, left, (t₂, e₂, r₂, held₂))) =
          round-Keeps rounds {t = t₁} (ws ++ w ∷ []) p (q ++ fs) r₁
            (Inv-at refl (append_assoc p q fs) held₁)
            (λ c' n' ws' p' q' t' r' held'. drain-Keeps rounds ws' p' q' r' held') in
        (
          w ∷ vs,
          last,
          (
            out,
            left,
            (
              t₂,
              ap
                    (λ (l : List Bytes).
                      drain_round (others (before_pending rounds)) (drain others rounds) l t₁)
                    r₁.pending
                  ∙ e₂,
              r₂,
              Inv-at (append_assoc ws (w ∷ []) vs) refl held₂,
            ),
          ),
        )
