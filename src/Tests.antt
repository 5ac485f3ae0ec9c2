-- ===== src/Tests.antt =====
-- Concrete runs of the models: a small aggregate on a log in memory, a sealing, and stores.
mod Streams
mod Execution
mod Plans
mod Journal
mod Engine
mod Service
mod Graph
mod Lifetimes
mod Intents
mod Adapter
mod Log
mod Admission
mod JsonNumber
mod Batch
mod Repeated
mod Projector
