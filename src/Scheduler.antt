-- ===== src/Scheduler.antt =====
-- The scheduler of examples/scheduler, from the bitmap up to the loop of fdsched.c.
pub mod Priority
pub mod Queue
pub mod Npfp
pub mod Fds
pub mod Demo
mod Examples
