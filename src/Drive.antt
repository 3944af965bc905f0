-- ===== src/Drive.antt =====
-- reference/simple_drive.py: open-loop driving with recordings and an excitation of the valves.
pub mod Numeric
pub mod Generator
pub mod Draw
pub mod Signal
pub mod Sampling
pub mod Polls
pub mod Combined
pub mod Strokes
pub mod Watch
pub mod Logger
pub mod Session
pub mod Buttons
pub mod Loop
pub mod Neutral
pub mod Recorded
pub mod Passes
pub mod Input
pub mod Options
pub mod Aimed
