-- ===== src/Wal/Replay.antt =====
-- What the entries of a log do to one key.
use go_persist.Base.{
  ◌⊎◌, ◌≡◌, sym, ap, ◌∙◌, Option, none, some, List, [], ◌∷◌, ◌++◌, Bytes, equal, Bool-cases, refl,
  inl, inr,
}
use go_persist.Record.Entry.{Entry, set, delete}
use go_persist.Wal.Effects.{Contents, apply, replay, replay-append}

apply_one :
    (e : Entry) (key : Bytes)
    → ((m : Contents) → apply e m key ≡ m key)
      ⊎ ((after : Option Bytes) × ((m : Contents) → apply e m key ≡ after))
apply_one (set k v) key = elim (Bool-cases (equal k key)) [
  | inl same ↦ inr (some v, λ m. rw same)
  | inr other ↦ inl (λ m. rw other)
]
apply_one (delete k) key = elim (Bool-cases (equal k key)) [
  | inl same ↦ inr (none, λ m. rw same)
  | inr other ↦ inl (λ m. rw other)
]

-- The entries `es` leave the key alone, or they decide what it has, whatever was there before.
replay_cases :
    (es : List Entry) (key : Bytes)
    → ((m : Contents) → replay m es key ≡ m key)
      ⊎ ((after : Option Bytes) × ((m : Contents) → replay m es key ≡ after))
unfolding replay
replay_cases [] key = inl (λ m. refl)
replay_cases (e ∷ es) key = elim (replay_cases es key) [
  | inr (after, decides) ↦ inr (after, λ m. decides (apply e m))
  | inl leaves ↦ elim (apply_one e key) [
    | inr (after, decides) ↦ inr (after, λ m. leaves (apply e m) ∙ decides m)
    | inl alone ↦ inl (λ m. leaves (apply e m) ∙ alone m)
  ]
]

-- What two logs say of a key, the second without `es` and the first with them, the second says with
-- them as well.
pub replay_behind :
    {A : Type 0} (f : Option Bytes → A) (x : A) (key : Bytes) (m : Contents)
    (old found es : List Entry)
    → x ≡ f (replay m (old ++ es) key)
    → x ≡ f (replay m found key)
    → x ≡ f (replay m (found ++ es) key)
replay_behind f x key m old found es with_es without =
    let joined : (l : List Entry) → replay m (l ++ es) key ≡ replay (replay m l) es key =
      λ l. ap (λ (c : Contents). c key) (replay-append m l es) in
    elim (replay_cases es key) [
      | inl leaves ↦ without ∙ ap f (sym (joined found ∙ leaves (replay m found)))
      | inr (after, decides) ↦
          with_es
          ∙ ap f (joined old ∙ decides (replay m old))
          ∙ ap f (sym (joined found ∙ decides (replay m found)))
    ]
