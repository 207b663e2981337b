-- ===== src/Scheduling.antt =====
-- apps/controller/src/application/scheduling and overrides: the five-second refresh of outputs.
pub mod Cadence
pub mod Lane
pub mod Overlay
pub mod Dispatch
pub mod TimeSync
