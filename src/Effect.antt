-- ===== src/Effect.antt =====
-- External effects: crates/service-runtime/src/effect.rs, and their durable journal in
-- crates/service-eventlog/src/lib.rs.
pub mod Plan
pub mod Journal
pub mod Resume
