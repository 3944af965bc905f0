-- ===== src/Operator.antt =====
-- The operator's side of a policy run: native_stack/tools/vla_operator.py.
pub mod Tasks
pub mod Pad
pub mod Supervisor
