-- ===== src/Effect/Journal.antt =====
-- crates/service-eventlog/src/lib.rs: the effect journal over the durable event log, with the
-- records of crates/service-runtime/src/effect.rs.
pub mod Store
pub mod Load
pub mod Paging
pub mod Operations
pub mod Answers
pub mod Decisions
pub mod Behind
pub mod Lifecycle
pub mod Prepared
