-- ===== src/Configuration.antt =====
-- apps/controller/src/infrastructure/database: what is checked of a configuration before it is stored.
pub mod SchedulePoints
