-- ===== src/Api.antt =====
-- The objects that the controllers read and write.
pub mod Json
pub mod Workload
pub mod Schedule
