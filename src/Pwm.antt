-- ===== src/Pwm.antt =====
-- reference/modules/pwm: the PWM controller of the valves and the pump.
pub mod Constants
pub mod Config
pub mod Validation
pub mod Writer
pub mod Pulse
pub mod Controller
pub mod Parse
pub mod Load
