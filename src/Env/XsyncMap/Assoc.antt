-- ===== src/Env/XsyncMap/Assoc.antt =====
-- An association list meets the laws of `XsyncMap`. The map of the library is a hash table.
use go_persist.Base.{
  Bool, true, false, Option, none, some, List, [], ◌∷◌, Bytes, ◌≡◌, refl, ◌∙◌, equal, equal_iff,
  equal_refl, length, arith, if◌then◌else◌, Bool-cases, inl, inr,
}
use go_persist.Env.XsyncMap.{XsyncMap, Outcome, keep, remove, lookup, Distinct}

abbrev pub Assoc : Type 0 → Type 0
Assoc V = List (Bytes × V)

abbrev pub delete : {V : Type 0} → Assoc V → Bytes → Assoc V
delete [] k = []
delete ((j, v) ∷ l) k = let rest = delete l k in if equal j k then rest else (j, v) ∷ rest

abbrev pub store : {V : Type 0} → Assoc V → Bytes → V → Assoc V
store m k v = (k, v) ∷ delete m k

-- Each key once, with its first entry.
abbrev pub entries : {V : Type 0} → Assoc V → Assoc V
entries [] = []
entries ((k, v) ∷ l) = (k, v) ∷ delete (entries l) k

abbrev pub settle : {V S : Type 0} → Assoc V → Bytes → Outcome V × S → Assoc V × Option V × S
settle m k (keep v, s) = (store m k v, some v, s)
settle m k (remove, s) = (delete m k, none, s)

module _ {V : Type 0} where
  pub lookup-delete :
      (m : Assoc V) (k j : Bytes) → lookup j (delete m k) ≡ (if equal k j then none else lookup j m)
  unfolding lookup
  lookup-delete [] k j = ground arith
  lookup-delete ((i, v) ∷ m) k j =
      ground (arith, lookup-delete m k j, equal_iff i k, equal_iff k j, equal_iff i j)

  pub lookup-store :
      (m : Assoc V) (k : Bytes) (v : V) (j : Bytes)
      → lookup j (store m k v) ≡ (if equal k j then some v else lookup j m)
  unfolding lookup
  lookup-store m k v j = ground (arith, lookup-delete m k j)

  pub lookup-entries : (m : Assoc V) (j : Bytes) → lookup j (entries m) ≡ lookup j m
  unfolding lookup
  lookup-entries [] j = refl
  lookup-entries ((k, v) ∷ m) j = ground (arith, lookup-delete (entries m) k j, lookup-entries m j)

  delete-Distinct : (m : Assoc V) (k : Bytes) → Distinct m → Distinct (delete m k)
  delete-Distinct [] k d = tt
  delete-Distinct ((i, v) ∷ m) k d = elim (Bool-cases (equal i k)) [
    | inl same ↦ rw same (delete-Distinct m k d.1)
    | inr other ↦
        rw other (lookup-delete m k i ∙ rw d.0 (if-none (equal k i)), delete-Distinct m k d.1)
  ]
    where
      if-none : (b : Bool) → if◌then◌else◌ {A = Option V} b none none ≡ none
      if-none true = refl
      if-none false = refl

  pub entries-Distinct : (m : Assoc V) → Distinct (entries m)
  entries-Distinct [] = tt
  entries-Distinct ((k, v) ∷ m) = (
    lookup-delete (entries m) k k ∙ rw (equal_refl k),
    delete-Distinct (entries m) k (entries-Distinct m),
  )

pub settle_keep :
    {V S : Type 0} (m : Assoc V) (k : Bytes) (r : Outcome V × S) {v : V} {s : S}
    → r ≡ (keep v, s)
    → settle m k r ≡ (store m k v, some v, s)
settle_keep m k r e = rw e

pub settle_remove :
    {V S : Type 0} (m : Assoc V) (k : Bytes) (r : Outcome V × S) {s : S}
    → r ≡ (remove, s)
    → settle m k r ≡ (delete m k, none, s)
settle_remove m k r e = rw e

pub lookup_nil : (V : Type 0) (k : Bytes) → lookup {V = V} k [] ≡ none
unfolding lookup
lookup_nil V k = refl

instance abbrev pub assoc_map : XsyncMap
assoc_map = record {
  Map = Assoc;
  empty = [];
  load = λ m k. lookup k m;
  store = store;
  delete = delete;
  compute = λ m k f s. settle m k (f (lookup k m) s);
  size = λ m. length (entries m);
  range = entries;
  load-empty = lookup_nil;
  load-store = lookup-store;
  load-delete = lookup-delete;
  compute_keep = λ m k f s e. settle_keep m k (f (lookup k m) s) e;
  compute_remove = λ m k f s e. settle_remove m k (f (lookup k m) s) e;
  size-eq-length = λ m. refl;
  lookup-range = lookup-entries;
  range-Distinct = entries-Distinct;
}
