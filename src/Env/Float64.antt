-- ===== src/Env/Float64.antt =====
-- Go's float64, as far as the ratio of the automatic compaction uses it.
use go_persist.Base.{ℕ, Bool}

pub record Float64 : Type 1 where
  pub Float : Type 0
  -- The conversion of an int32, which is exact.
  pub of_int32 : ℕ → Float
  -- The literals 1.0 and 1.8.
  pub one : Float
  pub default_ratio : Float
  pub divide : Float → Float → Float
  -- `a <= b`
  pub le : Float → Float → Bool
