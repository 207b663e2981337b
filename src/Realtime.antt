-- ===== src/Realtime.antt =====
-- apps/controller/src/realtime: how changes of the state are told to clients.
pub mod EventStream
pub mod ReplayWindow
