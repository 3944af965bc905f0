-- ===== src/Perf.antt =====
-- The timing of loops: reference/modules/perf_tracker.py.
pub mod Welford
pub mod Loop
pub mod Control
