-- ===== src/Daemon.antt =====
-- The daemon's jobs (pkg/daemon): the states of the submitted jobs, the channels of those who
-- watch them, and the calls of the job manager.
pub mod Channels
pub mod JobState
pub mod JobManager
pub mod JobService
mod Samples
