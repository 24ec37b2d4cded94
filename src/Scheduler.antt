-- ===== src/Scheduler.antt =====
-- The scheduler of a daemon (pkg/scheduler): the queue of waiting jobs, the placement
-- heuristic, the operations that launch or queue a job, and the tracker of remote jobs.
pub mod Queue
pub mod Heuristic
pub mod Dispatch
pub mod Tracker
pub mod Samples
