-- ===== src/Shrink/Drain.antt =====
-- The loop of `Shrink` that drains `pendingRecords` while other goroutines work.
use mathlib.Core.Path.{subst}
use go_persist.Base.{
  ℕ, zero, suc, ◌+◌, ◌≡◌, refl, sym, ap, ◌∙◌, List, [], ◌∷◌, ◌++◌, Bytes, append_assoc, append-nil,
  length, length-append, arith,
}
use go_persist.Env.XsyncMap.{XsyncMap}
use go_persist.Env.Json.{Json}
use go_persist.Env.Os
use go_persist.Record.Entry.{Entry, log_bytes}
use go_persist.Result.{ok}
use go_persist.Shrink.{
  Window, before_drain, before_pending, Shrinking, Go, ◌>>◌, call, modify, stopped, take_pending,
  with_tmp, write_pending, drain, drain_round,
}
use go_persist.Shrink.Swap.{sync-Reaches}
use go_persist.Shrink.Compacting.{Compacting, then_ok, log_bytes-append}
use go_persist.Shrink.Windows.{
  Busy, Ready, Ready-at, Ready-Compacting, Compacting-Ready, Work-Ready,
}
use go_persist.Shrink.Work.{Work, lines}
use go_persist.Shrink.Steps.{write_pending-Reaches}
use go_persist.State.{Store}

abbrev pub drained_round : List Entry → List Entry → List Entry
drained_round later [] = []
drained_round later (e ∷ q) = (e ∷ q) ++ later

-- What is written behind the snapshot, where `p` is pending before the first of `rounds` rounds: a
-- round that finds nothing pending is the last one.
unfoldable pub drained : (Window → List Entry) → ℕ → List Entry → List Entry
drained es zero p = p
drained es (suc rounds) p =
    drained_round (drained es rounds (es (before_pending rounds))) (p ++ es (before_drain rounds))

module _ ⦃maps : XsyncMap⦄ ⦃json : Json⦄ where
  -- A run of `m` that succeeds, has written a part of the records `q`, and leaves the others pending.
  abbrev Drains : Bytes → Bytes → ℕ → List Entry → Go (Unit {0}) → Shrinking → Type 0
  Drains home c n q m t =
      (out left : List Entry) × (q ≡ out ++ left)
      × ((t' : Shrinking) × (m t ≡ (ok tt, t'))
          × Ready home (c ++ log_bytes out) (n + length out) left t')

  pub take-Ready :
      {home c : Bytes} {n : ℕ} {p : List Entry} {t : Shrinking}
      → Ready home c n p t
      → Ready home c n [] (record t { base = take_pending t.base })
  take-Ready r = record {
    shared = record {
      is_loaded = r.shared.is_loaded;
      is_shrinking = r.shared.is_shrinking;
      open_at = r.shared.open_at;
      log = r.shared.log;
      there = r.shared.there;
      quiet = r.shared.quiet;
      orphans = r.shared.orphans;
      registered = r.shared.registered;
    };
    synced = r.synced;
    there = r.there;
    counted = r.counted;
    pending = refl;
    at_home = r.at_home;
  }

  -- A round that finds records pending, with `work` after it has taken them.
  pub round_lem :
      (env : Store → Store) (again : Go (Unit {0})) (e : Entry) (q : List Entry) {home c : Bytes}
      {n : ℕ} {fs : List Entry} {t : Shrinking}
      → Ready home c n (e ∷ q) t
      → (work : Work (take_pending t.base) fs (env (take_pending t.base)))
      → (t' : Shrinking) × (drain_round env again (lines (e ∷ q)) t ≡ again t')
        × Ready home (c ++ log_bytes (e ∷ q)) (n + length (e ∷ q)) fs t'
        × Compacting (env (take_pending t.base)) (c ++ log_bytes (e ∷ q)) (n + length (e ∷ q)) t'
  unfolding drain_round log_bytes
  round_lem env again e q {fs = fs} {t = t} r work =
      let taken : Shrinking = record t { base = take_pending t.base } in
      let r₂ = Work-Ready (take-Ready r) work in
      let (t₃, e₃, h₃) = write_pending-Reaches stopped (e ∷ q) (Ready-Compacting r₂) in
      let (t₄, e₄, h₄, _) = sync-Reaches stopped h₃ in
      let flush : Go (Unit {0}) = with_tmp λ w. call (Os.sync w) stopped in
      (
        t₄,
        then_ok (modify take_pending)
              (modify env >> (write_pending stopped (lines (e ∷ q)) >> (flush >> again))) t refl
            ∙ then_ok (modify env) (write_pending stopped (lines (e ∷ q)) >> (flush >> again)) taken
                refl
            ∙ then_ok (write_pending stopped (lines (e ∷ q))) (flush >> again)
                (record taken { base = env taken.base }) e₃
            ∙ then_ok flush again t₃ e₄,
        Compacting-Ready r₂ h₄,
        h₄,
      )

  module _ {es : Window → List Entry} {others : Window → Store → Store}
      (busy : Busy es others) where
    round-Drains :
        (rounds : ℕ) {home c : Bytes} {n : ℕ} {t : Shrinking} (q : List Entry)
        → Ready home c n q t
        → ((c' : Bytes) (n' : ℕ) (t' : Shrinking)
            → Ready home c' n' (es (before_pending rounds)) t'
            → Drains home c' n'
                (drained es rounds (es (before_pending rounds)))
                (drain others rounds)
                t')
        → Drains home c n
            (drained_round (drained es rounds (es (before_pending rounds))) q)
            (drain_round (others (before_pending rounds)) (drain others rounds) (lines q))
            t
    unfolding drain_round log_bytes
    round-Drains rounds {home} {c} {n} {t} [] r later =
        ([], [], refl, (t, refl, Ready-at (sym (append-nil c)) (omega arith) r))
    round-Drains rounds {home} {c} {n} {t} (e ∷ q) r later =
        let (t₄, e₄, r₄, _) =
          round_lem (others (before_pending rounds)) (drain others rounds) e q r
            (busy (before_pending rounds) (take_pending t.base) (take-Ready r).shared) in
        let (out, left, form, (t₅, e₅, r₅)) = later _ _ _ r₄ in
        (
          (e ∷ q) ++ out,
          left,
          ap (λ (l : List Entry). (e ∷ q) ++ l) form ∙ sym (append_assoc (e ∷ q) out left),
          (
            t₅,
            e₄ ∙ e₅,
            Ready-at
                (append_assoc c (log_bytes (e ∷ q)) (log_bytes out)
                  ∙ ap (λ (b : Bytes). c ++ b) (sym (log_bytes-append (e ∷ q) out)))
                (omega (arith, length-append {0} q out)) r₅,
          ),
        )

    pub drain-Drains :
        (rounds : ℕ) {home c : Bytes} {n : ℕ} {p : List Entry} {t : Shrinking}
        → Ready home c n p t
        → Drains home c n (drained es rounds p) (drain others rounds) t
    unfolding drain drained log_bytes
    drain-Drains zero {home} {c} {n} {p} {t} r =
        ([], p, refl, (t, refl, Ready-at (sym (append-nil c)) (omega arith) r))
    drain-Drains (suc rounds) {home} {c} {n} {p} {t} r =
        let r₁ = Work-Ready r (busy (before_drain rounds) t.base r.shared) in
        let t₁ : Shrinking = record t { base = others (before_drain rounds) t.base } in
        subst
          (λ (l : List Bytes).
            Drains home c n (drained es (suc rounds) p)
              (λ x. drain_round (others (before_pending rounds)) (drain others rounds) l t₁) t)
          (sym r₁.pending)
          (round-Drains rounds {t = t₁} (p ++ es (before_drain rounds)) r₁
            (λ c' n' t' r'. drain-Drains rounds r'))
