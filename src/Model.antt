-- ===== src/Model.antt =====
-- The data of crates/core/src/model.rs and crates/core/src/repo/types.rs.
pub mod Enum
pub mod State
pub mod SkipReason
pub mod Backend
pub mod RootKind
pub mod ScanPhase
pub mod JournalState
pub mod EventMethod
pub mod EventResult
pub mod Records
pub mod Paths
pub mod Transition
