-- ===== src/Operations.antt =====
-- apps/controller/src: device operations, from their row in the database to their attempt on the wire.
pub mod Lifecycle
pub mod Attempt
pub mod Gate
pub mod Builders
