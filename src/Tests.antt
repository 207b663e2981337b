-- ===== src/Tests.antt =====
-- The theorems at concrete inputs, and runs of the definitions, one module for each part.
pub mod Schedules
pub mod Wire
pub mod Timing
pub mod Rows
pub mod Lanes
pub mod Exclusion
pub mod Delivery
pub mod Commands
pub mod TimeSync
pub mod Stream
pub mod Editor
