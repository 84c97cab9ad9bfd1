-- ===== src/Result.antt =====
-- The errors that the package returns, and Go results: a value, an error, or a panic.
use go_persist.Base.{ℕ, Bytes}

pub data Error : Type 0 where
  not_loaded already_loaded key_not_found shrink_in_progress : Error
  map_already_exists map_closed auto_shrink_running ratio_too_small : Error
  too_short missing_space buffer_full eof invalid_header : Error
  io_failed json_failed not_convertible : Error
  control_byte control_rune : ℕ → ℕ → Error
  reading_failed : Error → Error
  processing_failed : Bytes → Error → Error

pub data Result {ℓ} (A : Type ℓ) : Type ℓ where
  ok : A → Result A
  err : Error → Result A
  panic : Result A
