-- ===== src/BenchmarkLoad/Records.antt =====
-- The records that the load benchmark stores (benchmark-load/load.go).
use Prim.Native.Nat.{bit_xor}
use go_persist.Base.{
  ℕ, zero, suc, ◌+◌, ◌*◌, ◌/◌, ◌%◌, ◌^◌, ◌≡◌, refl, true, false, Option, none, some, List, [], ◌∷◌,
  ◌++◌, Bytes, codes, length, ltb,
}
use go_persist.BenchmarkLoad.Text.{
  generate_high_entropy_lorem_ipsum, generate_high_entropy_lorem_ipsum-length,
}
use go_persist.Env.Rand.{Rand}

-- `Meta`
pub record Meta : Type 0 where
  pub created_at : ℕ
  pub updated_at : ℕ
  pub tags : List Bytes

-- `ComplexRecord`
pub record ComplexRecord : Type 0 where
  pub id : Bytes
  pub name : Bytes
  pub description : Bytes
  pub data_text : Bytes
  pub meta : Meta

-- uint64
abbrev word_mod : ℕ
word_mod = 2 ^ 64

-- hash/fnv: `Write` and `Sum64` of FNV-1a.
abbrev pub offset_basis : ℕ
offset_basis = 14_695_981_039_346_656_037

abbrev pub fnv_write : ℕ → Bytes → ℕ
fnv_write h [] = h
fnv_write h (b ∷ bs) = fnv_write (bit_xor h b * 1_099_511_628_211 % word_mod) bs

-- `binary.LittleEndian.PutUint64`
abbrev pub little_endian : ℕ → ℕ → Bytes
little_endian zero n = []
little_endian (suc k) n = n % 256 ∷ little_endian k (n / 256)

-- `seedForField`: the int64 by its bit pattern.
unfoldable pub seed_for_field : Bytes → ℕ → Bytes → ℕ
seed_for_field map_name i field =
    fnv_write (fnv_write (fnv_write offset_basis map_name) field) (little_endian 8 (i % word_mod))

-- `%d` of a number that is not negative. It has at most as many digits as `rounds`.
unfoldable pub digits : ℕ → ℕ → Bytes → Bytes
digits zero n later = later
digits (suc rounds) n later =
    let d = b'0' + n % 10 in
    elim (ltb n 10) [ true ↦ d ∷ later | false ↦ digits rounds (n / 10) (d ∷ later) ]

abbrev pub decimal : ℕ → Bytes
decimal n = digits (suc n) n []

module _ ⦃rand : Rand⦄ where
  abbrev complex_record : ℕ → Bytes → ℕ → Bytes → Bytes → ComplexRecord
  complex_record now map_name i description payload = record {
    id = map_name ++ (b'-' ∷ decimal i);
    name = codes "Record " ++ decimal i;
    description = description;
    data_text = payload;
    meta = record {
      created_at = now;
      updated_at = now;
      tags = codes "tag1" ∷ codes "tag2" ∷ codes "tag3" ∷ [];
    };
  }

  abbrev record_of : ℕ → Bytes → ℕ → Option Bytes → Option Bytes → Option ComplexRecord
  record_of now map_name i (some description) (some payload) =
      some (complex_record now map_name i description payload)
  record_of now map_name i description payload = none

  -- `createRecord` at the time `now`; `none` is a panic.
  unfoldable pub create_record : ℕ → Bytes → ℕ → Option ComplexRecord
  unfolding seed_for_field
  create_record now map_name i =
      record_of now map_name i
        (generate_high_entropy_lorem_ipsum 42 (seed_for_field map_name i (codes "description")))
        (generate_high_entropy_lorem_ipsum 1024 (seed_for_field map_name i (codes "data")))

  -- Whatever the source of random numbers draws, `createRecord` returns a record, with a description
  -- of 42 bytes and 1024 bytes of data, whose identifier is the name of the map, a dash and the index.
  pub create_record-length :
      (now : ℕ) (map_name : Bytes) (i : ℕ)
      → (c : ComplexRecord) × (create_record now map_name i ≡ some c)
        × (length c.description ≡ 42)
        × (length c.data_text ≡ 1024)
        × (c.id ≡ map_name ++ (b'-' ∷ decimal i))
  unfolding create_record
  create_record-length now map_name i =
      let (description, e, short) =
        generate_high_entropy_lorem_ipsum-length 42
          (seed_for_field map_name i (codes "description")) in
      let (payload, f, long) =
        generate_high_entropy_lorem_ipsum-length 1024 (seed_for_field map_name i (codes "data")) in
      (complex_record now map_name i description payload, rw (e, f), short, long, refl)
