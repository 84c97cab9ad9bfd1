-- ===== src/Shrink/Contents.antt =====
-- What the entries that a pass writes stand for.
use mathlib.Core.Path.{subst}
use go_persist.Base.{
  ◌≡◌, refl, sym, ap, ◌∙◌, false, Option, none, some, List, [], ◌∷◌, ◌++◌, Bytes, All, equal,
  equal_iff, equal_refl, Bool-cases, Option-cases, inl, inr,
}
use go_persist.Env.XsyncMap.{XsyncMap, lookup, Distinct}
use go_persist.Env.Json.{Json}
use go_persist.PersistMap.Durable.{equal-append_left}
use go_persist.Shrink.Steps.{entries_of, entries_of-some, HaveText}
use go_persist.Wal.Effects.{Contents, replay}

pub All-lookup :
    {V : Type 0} (P : Bytes × V → Type 0) (l : List (Bytes × V))
    → Distinct l
    → ((k : Bytes) (v : V) → lookup k l ≡ some v → P (k, v))
    → All P l
unfolding lookup
All-lookup P [] once h = tt
All-lookup P ((k, v) ∷ l) once h = (
  h k v (rw (equal_refl k)),
  All-lookup P l once.1 (λ j w there. elim (Bool-cases (equal k j)) [
    | inl same ↦ cc (ap (λ i. lookup i l) ((equal_iff k j).0 same), once.0)
    | inr other ↦ h j w (rw other there)
  ]),
)

module _ ⦃maps : XsyncMap⦄ ⦃json : Json⦄ where
  open maps use {load, range, lookup-range, range-Distinct}
  open json use {Value, marshal, unmarshal}

  -- The text of a value that is there, or what was there before.
  abbrev pub text_or : (Value → Option Bytes) → Option Value → Option Bytes → Option Bytes
  text_or text none old = old
  text_or text (some v) old = text v

  pub replay-entries_of :
      (text : Value → Option Bytes) (p j : Bytes) (l : List (Bytes × Value)) (m : Contents)
      → HaveText text l
      → Distinct l
      → replay m (entries_of text p l) (p ++ j) ≡ text_or text (lookup j l) (m (p ++ j))
  unfolding entries_of lookup replay
  replay-entries_of text p j [] m texts once = refl
  replay-entries_of text p j ((k, v) ∷ l) m (has, texts) once = elim (Option-cases (text v)) [
    | inl e ↦ absurd (has e)
    | inr (line, e) ↦ rw (entries_of-some text p k v l e) (
        replay-entries_of text p j l _ texts once.1
        ∙ rw (equal-append_left p k j) (elim (Bool-cases (equal k j)) [
          | inl same ↦ rw same (
              ap (λ o. text_or text o (some line))
                (subst (λ i. lookup i l ≡ none) ((equal_iff k j).0 same) once.0)
              ∙ sym e)
          | inr other ↦ rw other
        ]))
  ]

  pub replay-entries_of_elsewhere :
      (text : Value → Option Bytes) (p K : Bytes) (l : List (Bytes × Value)) (m : Contents)
      → HaveText text l
      → ((k : Bytes) → equal (p ++ k) K ≡ false)
      → replay m (entries_of text p l) K ≡ m K
  unfolding entries_of replay
  replay-entries_of_elsewhere text p K [] m texts misses = refl
  replay-entries_of_elsewhere text p K ((k, v) ∷ l) m (has, texts) misses =
      elim (Option-cases (text v)) [
        | inl e ↦ absurd (has e)
        | inr (line, e) ↦
            rw (entries_of-some text p k v l e)
              (replay-entries_of_elsewhere text p K l _ texts misses ∙ rw (misses k))
      ]
