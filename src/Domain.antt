-- ===== src/Domain.antt =====
-- packages/domain: semantic schedules, their evaluation, and the firmware schedule.
pub mod Schedule
pub mod Validation
pub mod Evaluation
pub mod Pwm
pub mod Compiler
