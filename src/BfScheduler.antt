-- ===== src/BfScheduler.antt =====
-- lib/src/bf_scheduler.c, the best-first scheduler.
pub mod UpdateThread
pub mod Requests
pub mod Schedule
pub mod Update
mod Plain
