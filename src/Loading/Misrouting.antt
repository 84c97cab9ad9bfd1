-- ===== src/Loading/Misrouting.antt =====
-- Names of maps that hold a colon.
use go_persist.Base.{
  ℕ, zero, suc, ◌≤◌, ◌<◌, ◌≡◌, ◌≢◌, ap, inl, inr, some, [], ◌∷◌, ◌++◌, Bytes, length, take, arith,
  ◌==◌, Bool-cases, Option-cases,
}
use go_persist.Loading.{index, route}
use go_persist.Loading.Routing.{full_key}

index-append :
    (c : ℕ) (xs ys : Bytes) (i : ℕ)
    → index c xs ≡ some i
    → (index c (xs ++ ys) ≡ some i) × (i < length xs)
unfolding index
index-append c [] ys i h = cc
index-append c (x ∷ xs) ys i h = elim (Bool-cases (x == c)) [
  | inl same ↦ rw same (ground (arith, rw same at h))
  | inr other ↦ elim (Option-cases (index c xs)) [
    | inl e ↦ cc (rw (other, e) at h)
    | inr (j, e) ↦
        let (found, before) = index-append c xs ys j e in
        let same : suc j ≡ i = ground (arith, rw (other, e) at h) in
        (rw (other, found) (ap some same), omega arith)
  ]
]

length-take : (n : ℕ) (xs : Bytes) → length (take n xs) ≤ n
length-take zero xs = omega arith
length-take (suc n) [] = omega arith
length-take (suc n) (x ∷ xs) = omega (arith, length-take n xs)

-- No record of a map whose name holds a colon goes to that map when the file is loaded.
pub route-full_key_colon :
    (name key : Bytes) (i : ℕ) → index b':' name ≡ some i → (route (full_key name key)).0 ≢ name
unfolding route
route-full_key_colon name key i colon same =
    let (found, before) = index-append b':' name (b':' ∷ key) i colon in
    let cut : take i (full_key name key) ≡ name = rw found at same in
    absurd
      (omega (arith, before, length-take i (full_key name key), ap (λ (b : Bytes). length b) cut))
