-- ===== src/EnvRules.antt =====
-- backend/env_rules.py: the v4 judgement of temperature and humidity.
pub mod Thresholds
pub mod Event
pub mod Tracker
mod Tests
