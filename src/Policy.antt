-- ===== src/Policy.antt =====
-- native_stack/tools/policy_runtime: what stands between the cameras and the policy.
pub mod History
pub mod Rtc
pub mod State
