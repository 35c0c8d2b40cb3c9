-- ===== src/Lib.antt =====
-- nasdedup: the core of a daemon that finds files of equal content on a NAS and lets the kernel share
-- their extents.
--
-- A row of the store stands for a file and goes through the states of the life cycle: `settling`
-- until the file is left alone, `sized` until its sparse hash is known and a place is found for it,
-- `hashed` until it is compared byte by byte with the canonical file of its group, and then
-- `verified` or `deduped`. Events of the file system are paired and coalesced and then handled
-- (Handler), with a filter of names (Filter); events and scans (Walk) upsert rows into the queue (Rules,
-- Memory); the worker takes the row that is due (Memory.Queue), runs a step of the pipeline on it
-- (Pipeline), which reads the store and the files and answers a transition, and applies that
-- transition if the row is still in the state from which it starts (Memory.Apply). A journal lets the
-- daemon repair at boot what it had begun (Recovery), and a scheduler runs the periodic work
-- (Scheduler).
--
-- Which file models what, by path in the repository:
--   Model: crates/core/src/model.rs and crates/core/src/repo/types.rs; a module for each enumeration,
--     Model.Records for the structs, Model.Transition for patches and transitions
--   StateTable: crates/core/src/state.rs
--   Rules: crates/core/src/repo/rules.rs
--   Memory: crates/core/src/repo/memory/mod.rs; Memory.Queue, Memory.Apply, Memory.Misc and
--     Memory.Lookup: the files of those names; Memory.Watch, Memory.Prefix and Memory.Presence:
--     watch.rs;
--     Memory.Meta: the operations that mod.rs writes out; Memory.Inv: the invariant of the store, and
--     Memory.Reach: a store reached by calls of the repository
--   Pipeline: crates/core/src/pipeline; Pipeline.Ctx: the context, with the interfaces of fs.rs and
--     dedupe.rs; Pipeline.Settle, .Sized, .Group, .Verify, .Errno: the files of those names;
--     Pipeline.Requeue: what they share; Pipeline.Lawful and Pipeline.Heavy: proofs
--   Worker: crates/core/src/worker.rs
--   Recovery: crates/core/src/recovery.rs
--   Scheduler: crates/core/src/scheduler.rs
--   Events: crates/core/src/events.rs
--   Handler: crates/core/src/handler; Handler.Ghep, .Gom, .Dem and .Rename: the files of those names;
--     Handler.Upsert and Handler.XuLy: mod.rs; Handler.Ghep.Queue: the queue that Handler.Ghep
--     implements; Handler.Inv and Handler.Evidence: proofs
--   Filter: crates/core/src/filter/prefilter.rs; Filter.TempNames: temp_names.rs
--   Hash: the layout of the blocks in crates/core/src/hash.rs
--   Sysctl: crates/core/src/sysctl.rs
--   Scan: crates/core/src/scan.rs
--   Walk: crates/core/src/walk/mod.rs; Walk.HangDoi and Walk.Reconcile: the files of those names
--   Busy: crates/core/src/busy.rs
--   Window: crates/core/src/window.rs, and TimeWindow of crates/core/src/config.rs;
--     Window.Parse: its text, in config/parse.rs
--   Base: shared helpers; Base.HashMap: maps with a test of keys, and a map beside the list of its
--     keys; Examples, RuleExamples, HandlerExamples, WalkExamples and TimeExamples:
--     concrete runs
--
-- A function has the name that it has in the source; a step `buoc` carries the name of its file
-- (settle_buoc), and the parts of a long function are helpers named for what they do. A store is
-- passed and returned, and a result comes with the store that it leaves. The lock around the store is
-- not modelled: each call is one function.
--
-- Numbers: ids, sizes and counters are natural numbers, without the bound of their machine type; the
-- cached counter of the queue saturates as in the source. A time is an `i64`: sums and differences
-- wrap, and the saturating operations of the source saturate.
-- An array of bytes is a number, a path a list of components. The text of an error of the store is
-- represented by what it reports.
--
-- Loops are structural, but for two with a bound on their turns. The loop that doubles a limit
-- (Sysctl) has 52 turns, which reach 2^64. The loop of the worker has one turn more than the limit
-- `gioi_han` of the source; it is given the context and the answer of the stop flag of each round
-- as functions of its number. Without turns enough either would have no answer.
--
-- Not modelled: `remote_key` and the sparse hash, which are blake3; the magic bytes, so that the
-- verdict on them, like the holes and the hash of a file, is what an open file answers; the globs,
-- which globset matches; floating-point loads and the calendar of jiff, which are parameters; the
-- construction of a filter from the configuration; floating-point rates (throttle.rs); the
-- presence and remote scans of crates/core/src/walk, and configuration; and the crates for SQLite,
-- Linux and the command line.
pub mod Base
pub mod Model
pub mod StateTable
pub mod Rules
pub mod Memory
pub mod Pipeline
pub mod Worker
pub mod Recovery
pub mod Scheduler
pub mod Filter
pub mod Hash
pub mod Sysctl
pub mod Scan
pub mod Walk
pub mod Busy
pub mod Window
mod TimeExamples
pub mod Events
pub mod Handler
mod Examples
mod RuleExamples
mod HandlerExamples
mod WalkExamples
