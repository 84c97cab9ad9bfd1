-- ===== src/Tests.antt =====
-- The theorems at concrete inputs.
mod Codec
mod Fixtures
mod Records
mod Maps
mod Stores
mod Histories
mod Shrinks
mod Usage
mod Ticks
mod Drawing
mod Engines
