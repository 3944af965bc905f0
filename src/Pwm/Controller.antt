-- ===== src/Pwm/Controller.antt =====
-- reference/modules/pwm/controller.py: `class PWMController`. Every method runs under the object's
-- lock, so a method is a function from the state before it to the state after it.
pub mod State
pub mod Pump
pub mod Commands
pub mod Lifecycle
pub mod Setup
pub mod Limits
pub mod Invariant
pub mod Direct
pub mod Centered
pub mod Kept
pub mod Steps
pub mod Hold
pub mod Rate
pub mod Nan
