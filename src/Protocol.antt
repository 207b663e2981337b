-- ===== src/Protocol.antt =====
-- packages/esp-protocol: the MQTT protocol between the controller and its devices.
pub mod Topics
pub mod Hash
pub mod Version
pub mod Limits
pub mod ScheduleDocument
pub mod Commands
pub mod Requests
