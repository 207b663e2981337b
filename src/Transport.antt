-- ===== src/Transport.antt =====
-- apps/controller/src/infrastructure/mqtt/legacy-mqtt-transport.ts: how commands get to the devices, and
-- what is made of the responses.
pub mod Outcomes
pub mod ActiveBatch
pub mod Lanes
pub mod Operation
