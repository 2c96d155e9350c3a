-- ===== src/Mqtt.antt =====
-- backend/mqtt: the topics, and the access list of the broker.
pub mod Topics
pub mod Registry
pub mod Access
pub mod Dispatch
mod Tests
