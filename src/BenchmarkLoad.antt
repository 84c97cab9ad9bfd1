-- ===== src/BenchmarkLoad.antt =====
-- The load benchmark (benchmark-load).
pub mod Text
pub mod Records
pub mod Runs
pub mod Stores
pub mod Files
pub mod Spaces
