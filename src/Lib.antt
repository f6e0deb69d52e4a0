-- ===== src/Lib.antt =====
-- A verification library for directory-size-exporter, a Prometheus exporter that walks directories and
-- publishes their sizes. Paths are from the repository's root.
--
-- The parts of the program and how they interact. The resolver (internal/targets) turns patterns into
-- the paths to scan. The engine (internal/scan) walks each path with a few workers over one shared
-- pool, adds up what it meets, and hands one result per target to the store (internal/state). The store
-- decides what of a result is retained, and renders a snapshot of each target. The collector
-- (internal/collector) turns the snapshots, and its cache of filesystem capacity (internal/fsstat), into
-- the series of a scrape. The main program (cmd/directory-size-exporter) runs the scan cycles and the
-- reloads beside one another, and the server (internal/server) answers requests. The configuration
-- (internal/config) is settled from four sources and checked once, before any of this.
--
-- Which file models which part:
--   Base            the names that the others share: Boolean tests, lists on native numbers, 64-bit
--                   words, byte strings, Go maps (Base.Dict), families of workers (Base.Family)
--   State           internal/state/store.go. State.Types has its records, State.Target what one result
--                   does to the state of one target (`Apply`), State itself the operations of the
--                   store: `set_targets`, `mark_scan_started`, `apply`, `snapshot`, `snapshot_for`.
--                   Proofs: State.Retention, State.Growth, State.Counters, State.Tracking,
--                   State.Validity, State.Refinement
--   Scan.ErrClass   internal/scan/errclass.go: the classes of errors, and tallies
--   Scan.Target     internal/scan/target.go: the totals of a target, its latch, hard-link dedup
--   Scan.Walk       internal/scan/walk.go: `process_dir` and `process_entry`. Scan.Walk.Pass is the
--                   specification, a single pass over the entries
--   Scan.Pool       the work pool of internal/scan/engine.go: `push`, `next`, `close`
--   Scan.Latch      the workers of internal/scan/engine.go as a step relation, in any interleaving
--   Scan.Worker     the loop of a worker of internal/scan/engine.go, alone on the pool. Proofs:
--                   Scan.Worker.Queue, Scan.Worker.Visits, Scan.Worker.Drains
--   Scan.Engine     `with_defaults`, `prepare_root`, `supervise`, `build_result` of
--                   internal/scan/engine.go
--   Scan.Launch     the loop of `ScanAll` over the targets, which queues their roots. Proofs:
--                   Scan.Launch.Measured
--   Scan.Cycles     the engine's lock and gauges over its cycles, `new_engine`, `drain_workers`, `stats`
--   Scan.Summary    internal/scan/summary.go: the line that is logged for a scan
--   Targets         internal/targets/resolver.go: `resolve` and its steps; Targets.Paths has the string
--                   functions. Proofs: Targets.Pass, Targets.Keyed, Targets.Overlap,
--                   Targets.Limit
--   Config          internal/config/config.go and resolve.go: `validate`. Config.Fields has the table of
--                   settings of internal/config/registry.go, Config.Registry its `Resolve`,
--                   Config.Arguments its `NormalizeArgs`, Config.Printed its `value`. Proofs:
--                   Config.Effective, Config.Printed.Digits, Config.Printed.ReadBack,
--                   Config.Registry.Passes, Config.Registry.Precedence, Config.Registry.Names
--   Fsstat          internal/fsstat/fsstat.go: the capabilities. Fsstat.Linux: the capacity and the
--                   mount point of internal/fsstat/fsstat_linux.go. Fsstat.System: the directories and
--                   the file status of fsstat_linux.go and fsstat_windows.go, and the walk on them.
--                   Fsstat.Fake: internal/fsstat/fake.go, with its paths (Fsstat.Fake.Paths) and its
--                   methods (Fsstat.Fake.Handles). Proofs: Fsstat.Fake.Served, Fsstat.Fake.Walked,
--                   Fsstat.Fake.Descriptors, Fsstat.Fake.Linked, Fsstat.Fake.Built,
--                   Fsstat.Fake.Nearest
--   Collector       Collector.Descs is internal/collector/descs.go; Collector.Targets (`collectTarget`),
--                   Collector.Scrape (`Collect`, `collectEngine`) and Collector.Recorder are
--                   collector.go, Collector.Filesystem is filesystem.go. Collector.Series has what a
--                   series is known by. Proofs: Collector.Scrape.Unique, Collector.Scrape.Labels,
--                   Collector.Filesystem.Once, Collector.Filesystem.Refresh, Collector.Reported
--   Schedprio       internal/schedprio/schedprio.go: the class of I/O priority; Schedprio.Linux:
--                   schedprio_linux.go
--   App             cmd/directory-size-exporter/main.go: `new_app`, `reload`, and the steps of the
--                   goroutines in any interleaving; App.Serve has `worker_init_func` and the end of
--                   `serve`. Proofs: App.Soundness, App.Start, App.Scraped,
--                   App.Reload, App.Readiness, App.Limit
--   Server          internal/server/server.go: the routes and the handlers. Proofs: Server.Routes,
--                   Server.Answers
--   Tests           the theorems at concrete inputs
--
-- How the code is represented. An int64, uint64, int or time.Duration is the number below 2 ^ 64 with
-- its bit pattern, with the wrap-around written out; an instant is a number of nanoseconds since the
-- Unix epoch. A float64 number of seconds is the exact number of nanoseconds. A string is the list of
-- its bytes, a map an association list, and a range over a map goes through it in order. The clock is
-- an argument. A method under a mutex is one step. What is outside of the program is a parameter: the
-- filesystem, the context and the rate limiter of the walk are the record `Env` of functions on a state
-- of the world, and the path functions of the host are the record `Host`. The hypotheses on `Env` are
-- the record `Listing`: a directory does not change while it is read. The context and the limiter
-- alone are the record `Pace`. The fake filesystem is one such `Env`, and the directories of Linux and
-- of Windows are, over the calls of the host that the record `Os` stands for. What `Handle` of net/http
-- panics on is the argument `panics_on`.
--
-- Between the steps of App any other goroutine may run: a reload is split at its lock, its resolution
-- and its `SetTargets`, a cycle at its begin, at each call about a scan, and at its end.
--
-- Fuel. The read loop of `process_dir` has no bound in the source, since it ends with the directory; in
-- the model it is on fuel, and more fuel than the directory has entries is enough, as every round
-- but the last takes an entry. The loop of `mountpoint_of` has fuel for three rounds more than the path
-- has bytes, which is enough, as every parent is shorter until the top; so it is with the loops of the
-- fake on the parents of a path. The loop of a worker has no bound in the source; more fuel than the
-- trees have directories is enough, as every round takes one.
--
-- Not modelled: the text of logs but that of the summary, of the audit and of flags, the libraries
-- (kingpin, the YAML parser, the Prometheus client, net/http beyond its routing, exporter-toolkit), the
-- system calls, of which the answers are parameters, the series of the histogram, the listener, the
-- timers of the heartbeat (internal/scan/progress.go), and the platforms on which each call is an error.
pub mod Base
pub mod Fsstat
pub mod State
pub mod Scan
pub mod Targets
pub mod Config
pub mod Collector
pub mod Schedprio
pub mod App
pub mod Server
pub mod Tests
