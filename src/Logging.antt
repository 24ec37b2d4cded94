-- ===== src/Logging.antt =====
-- The logging of a daemon (pkg/logging): the registry of sinks and loggers, the routing of
-- records, the local configuration manager, and the broadcaster of log entries.
pub mod Registry
pub mod Manager
pub mod Broadcaster
mod Samples
