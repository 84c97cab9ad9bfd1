-- ===== src/Lifecycle/AutoShrink.antt =====
-- The ticks of the goroutine that `StartAutoShrink` starts.
use go_persist.Base.{ℕ, ◌≡◌, sym, ap, ◌∙◌, true, false, Bool-cases, inl, inr, []}
use go_persist.Env.Float64.{Float64}
use go_persist.Env.XsyncMap.{XsyncMap}
use go_persist.Env.Json.{Json}
use go_persist.Lifecycle.Counts.{stats-shrink}
use go_persist.Lifecycle.{auto_shrink_tick, report_shrink, should_shrink, is_positive, stats}
use go_persist.Result.{Result, ok}
use go_persist.Shrink.{Window, shrink}
use go_persist.Shrink.Alone.{idle, shrink-Swapped}
use go_persist.Shrink.Steps.{HaveText, orphan_text}
use go_persist.Shrink.MapPass.{MapsHaveText}
use go_persist.State.{Store}

module _ ⦃maps : XsyncMap⦄ ⦃json : Json⦄ (float : Float64) where
  open maps use {range}
  open float use {Float, of_int32, one, divide, le}

  module _ (ratio : Float) where
    tick_quiet :
        (others : Window → Store → Store) (s : Store)
        → should_shrink float ratio (stats s).0 (stats s).1 ≡ false
        → auto_shrink_tick float ratio others s ≡ s
    unfolding auto_shrink_tick
    tick_quiet others s enough = rw enough

    tick_shrinks :
        (others : Window → Store → Store) (s : Store)
        → should_shrink float ratio (stats s).0 (stats s).1 ≡ true
        → (shrink others s).0 ≡ ok tt
        → auto_shrink_tick float ratio others s ≡ (shrink others s).1
    unfolding auto_shrink_tick
    tick_shrinks others s due success =
        rw due
          (ap (λ (r : Result (Unit {0})). report_shrink float (r, (shrink others s).1)) success)

    -- As many records as keys are no reason to shrink.
    balanced :
        (n : ℕ)
        → le ratio one ≡ false
        → ((k : ℕ) → is_positive k ≡ true → divide (of_int32 k) (of_int32 k) ≡ one)
        → should_shrink float ratio n n ≡ false
    unfolding should_shrink
    balanced n accepted self_ratio = elim (Bool-cases (is_positive n)) [
      | inl positive ↦ rw (positive, self_ratio n positive, accepted)
      | inr zero_or_less ↦ rw zero_or_less
    ]

    -- A tick of the automatic compaction, on an open store at rest that no other goroutine uses, if
    -- every value has a JSON text, no call of the operating system fails, and the ratio is one that
    -- `StartAutoShrink` accepts (not at most 1.0, where a float64 over itself is 1.0): the next tick,
    -- whatever other goroutines would do in its windows, leaves the store as it is.
    pub auto_shrink_tick-auto_shrink_tick :
        (others : Window → Store → Store) (s : Store)
        → le ratio one ≡ false
        → ((k : ℕ) → is_positive k ≡ true → divide (of_int32 k) (of_int32 k) ≡ one)
        → s.loaded ≡ true
        → s.shrinking ≡ false
        → s.os.faults ≡ []
        → HaveText orphan_text (range s.orphan_records)
        → MapsHaveText (range s.persist_maps)
        → auto_shrink_tick float ratio others (auto_shrink_tick float ratio idle s)
          ≡ auto_shrink_tick float ratio idle s
    auto_shrink_tick-auto_shrink_tick others s accepted self_ratio loaded at_rest quiet texts
          map_texts =
        elim (Bool-cases (should_shrink float ratio (stats s).0 (stats s).1)) [
          | inr enough ↦
              ap (auto_shrink_tick float ratio others) (tick_quiet idle s enough)
              ∙ tick_quiet others s enough
              ∙ sym (tick_quiet idle s enough)
          | inl due ↦
              let (success, _) = shrink-Swapped s loaded at_rest quiet texts map_texts in
              let once = tick_shrinks idle s due success in
              let even = stats-shrink s loaded at_rest quiet texts map_texts in
              let settled =
                ap (λ (p : ℕ × ℕ). should_shrink float ratio p.0 p.1) even
                ∙ balanced (stats s).0 accepted self_ratio in
              ap (auto_shrink_tick float ratio others) once
              ∙ tick_quiet others (shrink idle s).1 settled
              ∙ sym once
        ]
