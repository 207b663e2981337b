-- ===== src/Web.antt =====
-- apps/web: the editor of the schedules of a control area.
pub mod Points
pub mod Drafts
pub mod Editor
