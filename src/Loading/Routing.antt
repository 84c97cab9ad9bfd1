-- ===== src/Loading/Routing.antt =====
-- Which map a key of the log goes to.
use go_persist.Base.{
  ℕ, zero, suc, ◌≡◌, ◌≢◌, refl, sym, ap, ◌∙◌, ◌⊎◌, inl, inr, Bool, true, ◌&&◌, none, some, [], ◌∷◌,
  ◌++◌, Bytes, All, length, take, drop, arith, equal, equal_iff, equal_refl, ◌==◌, Bool-cases,
  Option-cases, take-append,
}
use go_persist.Loading.{index, route}

abbrev pub NoColon : Bytes → Type 0
NoColon = All (λ c. c ≢ b':')

-- The key under which the map `name` logs `key`.
abbrev pub full_key : Bytes → Bytes → Bytes
full_key name key = name ++ (b':' ∷ key)

pub index-NoColon :
    (name key : Bytes) → NoColon name → index b':' (full_key name key) ≡ some (length name)
unfolding index
index-NoColon [] key h = refl
index-NoColon (c ∷ name) key h = rw (index-NoColon name key h.1) (ground (arith, h.0))

drop_past : (xs ys : Bytes) (c : ℕ) → drop (suc (length xs)) (xs ++ (c ∷ ys)) ≡ ys
drop_past [] ys c = refl
drop_past (x ∷ xs) ys c = drop_past xs ys c

-- The key of a map whose name has no colon goes to that map, under its own key.
pub route-full_key : (name key : Bytes) → NoColon name → route (full_key name key) ≡ (name, key)
unfolding route
route-full_key name key h =
    rw (index-NoColon name key h, take-append name (b':' ∷ key), drop_past name key b':')

index-eq-some :
    (c : ℕ) (k : Bytes) (i : ℕ) → index c k ≡ some i → k ≡ take i k ++ (c ∷ drop (suc i) k)
unfolding index
index-eq-some c [] i h = cc
index-eq-some c (b ∷ bs) zero h = elim (Bool-cases (b == c)) [
  | inl same ↦ ground arith
  | inr other ↦ elim (Option-cases (index c bs)) [
    | inl e ↦ cc (rw (other, e) at h)
    | inr (j, e) ↦ absurd (ground (arith, rw (other, e) at h))
  ]
]
index-eq-some c (b ∷ bs) (suc i) h = elim (Bool-cases (b == c)) [
  | inl same ↦ absurd (ground (arith, rw same at h))
  | inr other ↦ elim (Option-cases (index c bs)) [
    | inl e ↦ cc (rw (other, e) at h)
    | inr (j, e) ↦ ap (◌∷◌ b) (index-eq-some c bs i (e ∙ ground (arith, rw (other, e) at h)))
  ]
]

-- Only the map with the empty name is given keys that hold no colon.
abbrev pub Separates : Bytes → Bytes → Type 0
Separates name k = (name ≢ []) ⊎ (index b':' k ≢ none)

and-eq-true : (a b : Bool) → a && b ≡ true → (a ≡ true) × (b ≡ true)
and-eq-true a b h = ground arith

-- A key that goes to `name` is one of its full keys.
route-inv : (name k : Bytes) → Separates name k → (route k).0 ≡ name → k ≡ full_key name (route k).1
unfolding route
route-inv name k sep h = elim (Option-cases (index b':' k)) [
  | inl e ↦ elim sep [
    | inl ne ↦ absurd (ne (sym (rw e at h)))
    | inr some_colon ↦ absurd (some_colon e)
  ]
  | inr (i, e) ↦ rw (e, ← (rw e at h)) (index-eq-some b':' k i e)
]

-- For a name with no colon, and a key `k` that has one or a name that is not empty: `k` is the full
-- key of `key` in that map exactly when it goes to that map, under `key`.
pub equal-full_key :
    (name k key : Bytes)
    → NoColon name
    → Separates name k
    → equal k (full_key name key) ≡ (equal (route k).0 name && equal (route k).1 key)
equal-full_key name k key plain sep = elim (Bool-cases (equal k (full_key name key))) [
  | inl same ↦ rw same (
      rw ((equal_iff k (full_key name key)).0 same, route-full_key name key plain)
        (rw (equal_refl name, equal_refl key)))
  | inr other ↦ elim (Bool-cases (equal (route k).0 name && equal (route k).1 key)) [
    | inr no_match ↦ other ∙ sym no_match
    | inl both ↦
        let (first, second) = and-eq-true _ _ both in
        let to_name = (equal_iff (route k).0 name).0 first in
        let to_key = (equal_iff (route k).1 key).0 second in
        let e = route-inv name k sep to_name ∙ ap (full_key name) to_key in
        absurd (cc ((equal_iff k (full_key name key)).1 e))
  ]
]
