-- ===== src/Handler.antt =====
-- The handler of events: crates/core/src/handler.
pub mod Ghep
pub mod Gom
pub mod Dem
pub mod Upsert
pub mod Rename
pub mod XuLy
pub mod Inv
pub mod Evidence
