-- ===== src/Contracts.antt =====
-- packages/contracts/src: the schemas of what the controller and its clients exchange.
pub mod BoundedText
pub mod Schedules
