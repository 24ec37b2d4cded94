-- ===== src/Lib.antt =====
-- Buildozer distributes compiler calls over the daemons of a network. A driver stands in for gcc,
-- g++, clang, clang++ or ar: it reads the command line, makes a job of it and submits the job to
-- the daemon. The daemon's scheduler asks a heuristic for a runtime and a peer, launches the job
-- in a goroutine, or queues it; a goroutine that ends takes the next job from the queue. The
-- heuristic asks the runtimes manager, which joins the local runtimes with those of the peers.
--
-- The files, with the code that they model:
--   * Common: numbers, texts, lists and maps that the others share. A text that the program walks
--     is a list of bytes; a Go map is an association list.
--   * Errors: pkg/scheduler/errors.go, pkg/scheduler/heuristics/errors.go. A Go pair of a value
--     and an error is `Result`; a call that may dereference nil is an `Outcome`.
--   * Proto: the messages of buildozer/proto/v1.
--   * Runtimes: pkg/runtimes/manager.go (GetRuntimes, GetRuntimeByID, Match, of the local and of
--     the aggregated manager), and Runtimes/Query: pkg/daemon/runtime_matcher.go.
--   * RuntimeId: pkg/runtime/proto.go (ParseRuntimeID, RuntimeToID) and parsers.go. Numbers are
--     read and written in base 10 as strconv does it, for 32 bits.
--   * Peers: pkg/peers/manager.go and types.go.
--   * Scheduler/Queue: pkg/scheduler/queue.go. Scheduler/Heuristic:
--     pkg/scheduler/heuristics/simple_local_first.go (Schedule). Scheduler/Dispatch:
--     pkg/scheduler/scheduler.go (scheduleJob is `plan_job` and `schedule_job`, its goroutine is
--     `run_launch`; EnqueueJob, TryScheduleNext, OnJobCompletion). Scheduler/Tracker:
--     pkg/scheduler/remote_tracker.go and remote_preparer.go.
--     Scheduler/Dispatch/Finalize: NewScheduler and FinalizeJobCompletion of scheduler.go.
--   * Daemon: pkg/daemon/job_manager.go (JobState; JobManager with its child Submit for SubmitJob
--     and the completion callback) and job_service.go (JobService). The channels of the watchers
--     stand in a store, Daemon/Channels, and a message in a channel is a copy or a pointer to the
--     job's own message. Daemon/JobManager/Steps has the steps between which no lock is held.
--   * Logging/Registry: the Registry of pkg/logging/logger.go, with the way of a record in
--     Logging/Registry/Routing. Logging/Manager: LocalConfigManager of
--     pkg/logging/config_manager.go, whose calls are joined in Logging/Manager/Calls.
--     A call of the manager is one step, and so is the routing of a record, although
--     EnableFileSink, AddLogger, log and others take the registry's lock several times.
--     Logging/Broadcaster: pkg/logging/log_buffer.go (LogBroadcaster), whose `Broadcast` holds the
--     lock for reading only, so that each of its sends is a step.
--   * Drivers/Gcc: pkg/drivers/cpp/gcc_common (parser.go, whose options Spelling and
--     Words spell literally; cli_validation.go in Cli; job.go in
--     CppJob). Drivers/Flags: pkg/drivers/flagparser.go (FlagSet). Drivers/Ar:
--     pkg/drivers/cpp/ar_common (parser.go; job.go in Archive).
--   * the Samples modules apply the theorems to concrete values.
--
-- A method that holds its mutex throughout is one step. `TryScheduleNext` holds no lock, so
-- Scheduler/Dispatch/Race cuts it into the steps that other calls may come between. The loop of
-- `OnJobCompletion` runs on fuel: one round takes a job out or stops, so more fuel than waiting
-- jobs is enough. `format_uint` runs on one round more than the number, of which it needs one per
-- digit. A stream's loop runs on more fuel than its channel's capacity. The other loops are by
-- recursion on their lists. The channels of the log's broadcaster hold 100 entries, and have a step
-- of their own for a subscriber's reading. What the code calls and is not modelled is an argument:
-- the clock, the detection of runtimes, the peers' matches, the order in
-- which Go walks a map, `strconv.Atoi`, `filepath.Rel` and `filepath.Join`, the
-- handlers of log files, the stager, and the names of generated enumerators.
--
-- Not modelled: log lines; contexts and timeouts; the other services of the daemon; the staging of
-- files; the detection and execution of compilers;
-- peer discovery; the log's services and reports; configuration; the command line tools.
pub mod Common
pub mod Errors
pub mod Proto
pub mod RuntimeId
pub mod Runtimes
pub mod Peers
pub mod Scheduler
pub mod Daemon
pub mod Logging
pub mod Drivers
