-- ===== src/Runtime.antt =====
-- crates/service-runtime: the contracts of one generated aggregate.
pub mod Auth
pub mod Stream
pub mod Content
pub mod History
pub mod Projection
pub mod Aggregate
pub mod Execution
