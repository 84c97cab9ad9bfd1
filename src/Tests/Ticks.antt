-- ===== src/Tests/Ticks.antt =====
-- `Stats`, the automatic compaction and `OpenSingleMap`, at concrete inputs.
use go_persist.Base.{ℕ, ◌*◌, ◌≡◌, refl, true, ◌==◌, leb, none, [], arith, if◌then◌else◌}
use go_persist.Env.Float64.{Float64}
use go_persist.Env.XsyncMap.Assoc.{assoc_map}
use go_persist.Lifecycle.AutoShrink.{auto_shrink_tick-auto_shrink_tick}
use go_persist.Lifecycle.Counts.{stats-shrink}
use go_persist.Lifecycle.Single.{Single, open_single_map-Single}
use go_persist.PersistMap.History.Disk.{no_file}
use go_persist.Env.Os.{Os}
use go_persist.Result.{ok}
use go_persist.Lifecycle.{open_single_map, stats, auto_shrink_tick, is_positive}
use go_persist.Shrink.{shrink}
use go_persist.Shrink.Alone.{idle}
use go_persist.State.{Store}
use go_persist.Tests.Codec.{codec, int}
use go_persist.Tests.Fixtures.{path, full_store}

-- Fractions in the place of float64, with one form for 1.0.
abbrev fraction : ℕ → ℕ → ℕ × ℕ
fraction a b = if a == b then (1, 1) else (a, b)

abbrev fractions : Float64
fractions = record {
  Float = ℕ × ℕ;
  of_int32 = λ n. (n, 1);
  one = (1, 1);
  default_ratio = (9, 5);
  divide = λ x y. fraction (x.0 * y.1) (x.1 * y.0);
  le = λ x y. leb (x.0 * y.1) (y.0 * x.1);
}

-- A store with two keys and nine records in its log.
abbrev grown_store : Store
grown_store = record full_store { total_wal_records = 9 }

self_ratio : (k : ℕ) → is_positive k ≡ true → fraction (k * 1) (1 * k) ≡ (1, 1)
self_ratio k positive = ground arith

stats-shrink_example :
    stats (shrink idle grown_store).1 ≡ ((stats grown_store).0, (stats grown_store).0)
stats-shrink_example = stats-shrink grown_store refl refl refl ((λ e. cc), tt) (((λ e. cc), tt), tt)

auto_shrink_tick-auto_shrink_tick_example :
    auto_shrink_tick fractions (9, 5) idle (auto_shrink_tick fractions (9, 5) idle grown_store)
    ≡ auto_shrink_tick fractions (9, 5) idle grown_store
auto_shrink_tick-auto_shrink_tick_example =
    auto_shrink_tick-auto_shrink_tick fractions (9, 5) idle grown_store refl self_ratio refl refl
      refl ((λ e. cc), tt) (((λ e. cc), tt), tt)

-- No file is there, and no call will fail.
abbrev empty_disk : Os
empty_disk = record { files = λ n. none; faults = [] }

open_single_map-Single_example :
    ((open_single_map fractions 0 int path empty_disk).0 ≡ ok tt)
    × Single fractions int (λ key. none) path (open_single_map fractions 0 int path empty_disk).1
open_single_map-Single_example =
    open_single_map-Single fractions int path 0 empty_disk refl (no_file refl refl)
