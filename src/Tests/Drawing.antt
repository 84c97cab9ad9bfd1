-- ===== src/Tests/Drawing.antt =====
-- The records of the load benchmark, at a concrete input.
use go_persist.Base.{ℕ, ◌+◌, ◌≡◌, ◌++◌, true, some, ◌∷◌, codes, length, refl}
use go_persist.BenchmarkLoad.Records.{
  ComplexRecord, create_record, create_record-length, decimal, digits,
}
use go_persist.Env.Rand.{Rand}

-- A source that always draws the least number.
instance abbrev pub least : Rand
least = record {
  Source = ℕ;
  seeded = λ seed. seed;
  intn = λ n r. (0, r + 1);
  intn-bound = λ n r positive. positive;
  below_a_fifth = λ r. (true, r + 1);
  below_a_half = λ r. (true, r + 1);
}

create_record-length_example :
    (c : ComplexRecord) × (create_record 7 (codes "map3") 40 ≡ some c)
    × (length c.description ≡ 42)
    × (length c.data_text ≡ 1024)
    × (c.id ≡ codes "map3" ++ (b'-' ∷ decimal 40))
create_record-length_example = create_record-length 7 (codes "map3") 40

decimal_test : decimal 4096 ≡ codes "4096"
unfolding digits
decimal_test = refl
