-- ===== src/Tests.antt =====
-- The theorems at concrete inputs, over `Fixed` numbers and a register file for the chip.
mod Fixtures
mod Writing
mod Controlling
mod Loading
mod Watching
mod Operating
mod Driving
