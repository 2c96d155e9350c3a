-- ===== src/AutoEnv.antt =====
-- backend/auto_env.py: automatic ventilation and misting of one device.
pub mod State
pub mod Ownership
pub mod Vent
pub mod Step
pub mod Closure
pub mod Safety
pub mod Commands
pub mod Reach
pub mod Few
pub mod Budget
mod Tests
