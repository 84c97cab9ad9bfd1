-- ===== src/Env/XsyncMap.antt =====
-- github.com/puzpuzpuz/xsync/v3: `Map`, by the operations and the documented laws that the
-- package relies on. A call is one atomic step.
pub mod Assoc
use go_persist.Base.{
  ℕ, Bool, true, false, Option, none, some, List, [], ◌∷◌, Bytes, ◌≡◌, ◌≢◌, equal, length,
  if◌then◌else◌,
}

-- What the function given to `Compute` returns: `(v, false)` or `(_, true)`.
pub data Outcome (V : Type 0) : Type 0 where
  keep : V → Outcome V
  remove : Outcome V

abbrev pub outcome_value : {V : Type 0} → Outcome V → Option V
outcome_value (keep v) = some v
outcome_value remove = none

-- The first entry of a key.
unfoldable pub lookup : {V : Type 0} → Bytes → List (Bytes × V) → Option V
lookup k [] = none
lookup k ((j, v) ∷ l) = if equal j k then some v else lookup k l

-- No key stands twice.
abbrev pub Distinct : {V : Type 0} → List (Bytes × V) → Type 0
Distinct [] = Unit
Distinct ((k, v) ∷ l) = (lookup k l ≡ none) × Distinct l

pub record XsyncMap : Type 1 where
  pub Map : Type 0 → Type 0
  pub empty : {V : Type 0} → Map V
  pub load : {V : Type 0} → Map V → Bytes → Option V
  pub store : {V : Type 0} → Map V → Bytes → V → Map V
  pub delete : {V : Type 0} → Map V → Bytes → Map V
  -- The new map, what is stored at the key after the call, and the state of the caller.
  pub compute :
      {V S : Type 0} → Map V → Bytes → (Option V → S → Outcome V × S) → S → Map V × Option V × S
  pub size : {V : Type 0} → Map V → ℕ
  pub range : {V : Type 0} → Map V → List (Bytes × V)
  pub load-empty : (V : Type 0) (k : Bytes) → load (empty {V = V}) k ≡ none
  pub load-store :
      {V : Type 0} (m : Map V) (k : Bytes) (v : V) (j : Bytes)
      → load (store m k v) j ≡ (if equal k j then some v else load m j)
  pub load-delete :
      {V : Type 0} (m : Map V) (k j : Bytes)
      → load (delete m k) j ≡ (if equal k j then none else load m j)
  pub compute_keep :
      {V S : Type 0} (m : Map V) (k : Bytes) (f : Option V → S → Outcome V × S) (s : S) {v : V}
      {s' : S}
      → f (load m k) s ≡ (keep v, s')
      → compute m k f s ≡ (store m k v, some v, s')
  pub compute_remove :
      {V S : Type 0} (m : Map V) (k : Bytes) (f : Option V → S → Outcome V × S) (s : S) {s' : S}
      → f (load m k) s ≡ (remove, s')
      → compute m k f s ≡ (delete m k, none, s')
  pub size-eq-length : {V : Type 0} (m : Map V) → size m ≡ length (range m)
  pub lookup-range : {V : Type 0} (m : Map V) (k : Bytes) → lookup k (range m) ≡ load m k
  pub range-Distinct : {V : Type 0} (m : Map V) → Distinct (range m)
