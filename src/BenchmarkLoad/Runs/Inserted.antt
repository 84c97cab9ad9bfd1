-- ===== src/BenchmarkLoad/Runs/Inserted.antt =====
-- What the loops of the load benchmark insert under keys with the name of a map in front.
use mathlib.Core.Path.{subst}
use go_persist.Base.{
  ℕ, zero, suc, ◌+◌, ◌≤◌, ◌<◌, ◌≡◌, ◌≢◌, ◌⊎◌, refl, sym, ap, ◌∙◌, Bool, true, Option, none, some,
  List, [], ◌∷◌, ◌++◌, Bytes, All, map, length, arith, equal, equal_iff, equal_refl, if◌then◌else◌,
  Bool-cases, Option-cases, inl, inr, drop, ◌==◌, ==_iff,
}
use go_persist.BenchmarkLoad.Records.{ComplexRecord, create_record, create_record-length, decimal}
use go_persist.BenchmarkLoad.Runs.{
  ◌>>=◌, prefixed_key, key_name, RecordJson, generate_slice, pre_generated_records, insert_slice,
  insert_maps, check_id, each_key,
}
use go_persist.Env.Rand.{Rand}
use go_persist.Loading.Routing.{NoColon, route-full_key}
use go_persist.Loading.{route}

-- The identifier that `createRecord` gives.
abbrev pub id_of : Bytes → ℕ → Bytes
id_of name i = name ++ (b'-' ∷ decimal i)

-- The name of a map is not empty and has no colon.
abbrev pub Plain : Bytes → Type 0
Plain name = NoColon name × (name ≢ [])

-- `m` is one of the names.
abbrev pub Among : Bytes → List Bytes → Type 0
Among m [] = ⊥
Among m (name ∷ names) = (name ≡ m) ⊎ Among m names

pub first_or_later : (i j : ℕ) → i ≤ j → (i ≡ j) ⊎ (suc i ≤ j)
first_or_later i j least = elim (Bool-cases (i == j)) [
  | inl same ↦ inl ((==_iff i j).0 same)
  | inr other ↦ inr (ground arith)
]

key-id :
    (name m : Bytes) (i j : ℕ)
    → NoColon name
    → NoColon m
    → equal (prefixed_key name i) (prefixed_key m j) ≡ true
    → id_of name i ≡ id_of m j
unfolding prefixed_key
key-id name m i j plain plain_m same =
    let routes : (name, key_name i) ≡ (m, key_name j) =
      sym (route-full_key name (key_name i) plain)
      ∙ ap route ((equal_iff (prefixed_key name i) (prefixed_key m j)).0 same)
      ∙ route-full_key m (key_name j) plain_m in
    ap (λ (r : Bytes × Bytes). r.0 ++ (b'-' ∷ drop 4 r.1)) routes

module _ (json : RecordJson) where
  open json use {marshal, unmarshal}

  -- The text of a record, from which its identifier can be read.
  pub record Encodes (r : ComplexRecord) : Type 0 where
    pub line : Bytes
    pub json_of : marshal r ≡ some line
    pub back : ComplexRecord
    pub reads_back : unmarshal line ≡ some back
    pub same_id : back.id ≡ r.id

  abbrev pub AllMade : Bytes → ℕ → List ComplexRecord → Type 0
  AllMade name i [] = Unit
  AllMade name i (r ∷ rs) = (r.id ≡ id_of name i) × Encodes r × AllMade name (suc i) rs

  -- The records of all maps: `n` for each.
  abbrev pub AllSlices : ℕ → List (Bytes × List ComplexRecord) → Type 0
  AllSlices n = All (λ e. Plain e.0 × ((length e.1 ≡ n) × AllMade e.0 0 e.1))

  module _ ⦃rand : Rand⦄ (now : Bytes → ℕ → ℕ)
      (encodes : (name : Bytes) (i : ℕ) (r : ComplexRecord)
        → create_record (now name i) name i ≡ some r
        → Encodes r) where
    generate_slice-AllMade :
        (name : Bytes) (i n : ℕ)
        → (rs : List ComplexRecord) × (generate_slice now name i n ≡ some rs)
          × (length rs ≡ n)
          × AllMade name i rs
    unfolding generate_slice
    generate_slice-AllMade name i zero = ([], refl, refl, tt)
    generate_slice-AllMade name i (suc n) =
        let (r, made, _, _, id) = create_record-length (now name i) name i in
        let (rs, more, long, all) = generate_slice-AllMade name (suc i) n in
        (r ∷ rs, rw made (rw more), ap (λ k. suc k) long, (id, encodes name i r made, all))

    pub pre_generated_records-AllSlices :
        (n : ℕ) (names : List Bytes)
        → All Plain names
        → (pre : List (Bytes × List ComplexRecord)) × (pre_generated_records now n names ≡ some pre)
          × (map (λ e. e.0) pre ≡ names)
          × AllSlices n pre
    unfolding pre_generated_records
    pre_generated_records-AllSlices n [] plain = ([], refl, refl, tt)
    pre_generated_records-AllSlices n (name ∷ names) (plain, more) =
        let (rs, made, long, all) = generate_slice-AllMade name 0 n in
        let (pre, rest, same, slices) = pre_generated_records-AllSlices n names more in
        (
          (name, rs) ∷ pre,
          rw made (rw rest),
          ap (λ (l : List Bytes). name ∷ l) same,
          ((plain, (long, all)), slices),
        )

  -- What a body of the loops does to the keys: it stores the text of the record under its key.
  abbrev pub Puts :
      (S : Type 0)
      → (Bytes → S → Option Bytes)
      → (Bytes → ℕ → ComplexRecord → S → Option S)
      → Type 0
  Puts S look put =
      (name : Bytes) (i : ℕ) (r : ComplexRecord) (s : S) (line : Bytes)
      → Plain name
      → marshal r ≡ some line
      → (s' : S) × (put name i r s ≡ some s')
        × ((j : Bytes)
            → look j s' ≡ (if equal (prefixed_key name i) j then some line else look j s))

  -- Whatever stands under a key of the map `m` can be read, and has the identifier of that key.
  abbrev pub Right : Bytes → ℕ → Option Bytes → Type 0
  Right m j found =
      (line : Bytes)
      → found ≡ some line
      → (r : ComplexRecord) × (unmarshal line ≡ some r) × (r.id ≡ id_of m j)

  module _ {S : Type 0} (look : Bytes → S → Option Bytes) where
    abbrev pub found : Bytes → ℕ → S → Option Bytes
    found m j s = look (prefixed_key m j) s

    -- `s'` has what `s` has under the keys of each map, and more; all of it is right if it was in `s`.
    pub record Grows (s s' : S) : Type 0 where
      pub right :
          (m : Bytes) → NoColon m → (j : ℕ) → Right m j (found m j s) → Right m j (found m j s')
      pub stays : (m : Bytes) (j : ℕ) → found m j s ≢ none → found m j s' ≢ none

    pub Grows-refl : {s : S} → Grows s s
    Grows-refl = record { right = λ m plain j r. r; stays = λ m j there. there }

    pub Grows-same : {s s' : S} → ((j : Bytes) → look j s' ≡ look j s) → Grows s s'
    Grows-same same = record {
      right = λ m plain j. subst (Right m j) (sym (same (prefixed_key m j)));
      stays = λ m j there gone. there (sym (same (prefixed_key m j)) ∙ gone);
    }

    pub Grows-trans : {s s' s'' : S} → Grows s s' → Grows s' s'' → Grows s s''
    Grows-trans g h = record {
      right = λ m plain j r. h.right m plain j (g.right m plain j r);
      stays = λ m j there. h.stays m j (g.stays m j there);
    }

    -- What stands under a key after a line has been stored.
    stored_else :
        (a key line : Bytes) (s : S) {s' : S} {b : Bool}
        → look key s' ≡ (if equal a key then some line else look key s)
        → equal a key ≡ b
        → look key s' ≡ (if b then some line else look key s)
    stored_else a key line s effect is =
        effect ∙ ap (λ (b : Bool). if b then some line else look key s) is

    -- A record has come under its key, the rest is as before.
    stored-Grows :
        (name : Bytes) (i : ℕ) (r : ComplexRecord) {s s' : S}
        → NoColon name
        → r.id ≡ id_of name i
        → (e : Encodes r)
        → ((j : Bytes)
            → look j s' ≡ (if equal (prefixed_key name i) j then some e.line else look j s))
        → Grows s s'
    stored-Grows name i r {s} {s'} plain id e effect = record {
      right = λ m plain_m j right line there.
          let key = prefixed_key m j in
          elim (Bool-cases (equal (prefixed_key name i) key)) [
            | inr other ↦
                right line
                  (sym (stored_else (prefixed_key name i) key e.line s (effect key) other) ∙ there)
            | inl same ↦
                let its_line : e.line ≡ line = cc (
                  sym (stored_else (prefixed_key name i) key e.line s (effect key) same) ∙ there) in
                (
                  e.back,
                  ap unmarshal (sym its_line) ∙ e.reads_back,
                  e.same_id ∙ id ∙ key-id name m i j plain plain_m same,
                )
          ];
      stays = λ m j there gone.
          let key = prefixed_key m j in
          elim (Bool-cases (equal (prefixed_key name i) key)) [
            | inr other ↦
                there
                  (sym (stored_else (prefixed_key name i) key e.line s (effect key) other) ∙ gone)
            | inl same ↦
                cc (sym (stored_else (prefixed_key name i) key e.line s (effect key) same) ∙ gone)
          ];
    }

    stored-here :
        (m name : Bytes) (i : ℕ) (line : Bytes) (s s' : S)
        → name ≡ m
        → ((j : Bytes)
            → look j s' ≡ (if equal (prefixed_key name i) j then some line else look j s))
        → found m i s' ≢ none
    stored-here m name i line s s' same effect gone =
        let key = prefixed_key name i in
        let here : look key s' ≡ some line =
          stored_else key key line s (effect key) (equal_refl key) in
        cc (here, ap (λ n. look (prefixed_key n i) s') same, gone)

    module _ (put : Bytes → ℕ → ComplexRecord → S → Option S) (puts : Puts S look put) where
      pub insert_slice-Grows :
          (name : Bytes) (i : ℕ) (rs : List ComplexRecord) (s : S)
          → Plain name
          → AllMade name i rs
          → (s' : S) × (insert_slice put name i rs s ≡ some s')
            × Grows s s'
            × ((m : Bytes) → name ≡ m → (j : ℕ) → i ≤ j → j < i + length rs → found m j s' ≢ none)
      unfolding insert_slice
      insert_slice-Grows name i [] s plain all =
          (s, refl, Grows-refl, λ m same j least bound. absurd (omega (arith, least, bound)))
      insert_slice-Grows name i (r ∷ rs) s plain (id, e, all) =
          let (s₁, ran, effect) = puts name i r s e.line plain e.json_of in
          let g₁ = stored-Grows name i r plain.0 id e effect in
          let (s₂, more, g₂, there) = insert_slice-Grows name (suc i) rs s₁ plain all in
          (
            s₂,
            rw ran more,
            Grows-trans g₁ g₂,
            λ m same j least bound. elim (first_or_later i j least) [
              | inl first ↦ g₂.stays m j (
                  subst (λ k. found m k s₁ ≢ none) first
                    (stored-here m name i e.line s s₁ same effect))
              | inr later ↦ there m same j later (omega (arith, bound))
            ],
          )

      -- The loops insert all records, and nothing else comes under the keys of a map.
      pub insert_maps-Grows :
          (n : ℕ) (pre : List (Bytes × List ComplexRecord)) (s : S)
          → AllSlices n pre
          → (s' : S) × (insert_maps put pre s ≡ some s')
            × Grows s s'
            × ((m : Bytes) → Among m (map (λ e. e.0) pre) → (j : ℕ) → j < n → found m j s' ≢ none)
      unfolding insert_maps
      insert_maps-Grows n [] s slices = (s, refl, Grows-refl, λ m among. absurd among)
      insert_maps-Grows n ((name, rs) ∷ rest) s ((plain, (long, all)), slices) =
          let (s₁, ran, g₁, mine) = insert_slice-Grows name 0 rs s plain all in
          let (s₂, more, g₂, later) = insert_maps-Grows n rest s₁ slices in
          (
            s₂,
            rw ran more,
            Grows-trans g₁ g₂,
            λ m among j bound. elim among [
              | inl here ↦ g₂.stays m j (mine m here j (omega arith) (omega (arith, long, bound)))
              | inr below ↦ later m below j bound
            ],
          )

    -- The loop over the keys, and the one key, find what they expect.
    pub read_lem :
        (m : Bytes) (j : ℕ) (s : S)
        → found m j s ≢ none
        → Right m j (found m j s)
        → ((found m j s >>= λ line. unmarshal line >>= λ r. check_id (id_of m j) r) ≡ some tt)
    read_lem m j s there right = elim (Option-cases (found m j s)) [
      | inl gone ↦ absurd (there gone)
      | inr (line, e) ↦
          let (r, reads, id) = right line e in rw e (rw reads (rw (id, equal_refl (id_of m j))))
    ]

pub each_key-ok :
    (read : ℕ → Option (Unit {0})) (n : ℕ) (keys : List ℕ)
    → ((j : ℕ) → j < n → read j ≡ some tt)
    → All (λ j. j < n) keys
    → each_key read keys ≡ some tt
unfolding each_key
each_key-ok read n [] reads below = refl
each_key-ok read n (j ∷ js) reads (first, below) =
    rw (reads j first) (each_key-ok read n js reads below)
