-- ===== src/Env/Rand.antt =====
-- math/rand: a source of random numbers, as far as the benchmarks draw from it.
use go_persist.Base.{ℕ, ◌<◌, ◌≤◌, ◌≡◌, Bool, Bytes, length}

pub record Rand : Type 1 where
  pub Source : Type 0
  -- `rand.New(rand.NewSource(seed))`, where the int64 is its bit pattern.
  pub seeded : ℕ → Source
  -- `r.Intn(n)`, which is at least 0 and less than `n`.
  pub intn : ℕ → Source → ℕ × Source
  pub intn-bound : (n : ℕ) (r : Source) → 0 < n → (intn n r).0 < n
  -- `r.Float64() < 0.2` and `r.Float64() < 0.5`.
  pub below_a_fifth : Source → Bool × Source
  pub below_a_half : Source → Bool × Source

-- What the run on files draws and computes. `rand.New(rand.NewSource(seed))` and then `Read` into a slice
-- of `size` bytes, which fills it and never fails; and for a uint32 `h` the float64 computation
-- `int(float64(h) / float64(math.MaxUint32) * float64(3*MB))`.
pub record Payloads : Type 0 where
  pub random_bytes : ℕ → ℕ → Bytes
  pub length-random_bytes : (seed size : ℕ) → length (random_bytes seed size) ≡ size
  pub scaled : ℕ → ℕ
  pub scaled-bound : (h : ℕ) → h < 4_294_967_296 → scaled h ≤ 3_145_728
