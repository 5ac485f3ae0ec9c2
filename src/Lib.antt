-- ===== src/Lib.antt =====
-- A model of the execution core of the Service SDK: the runtime (crates/service-runtime) with the
-- aggregate executor, the durable effect journal and the stored identities of the event-log adapter
-- (crates/service-eventlog), and the plan engine (crates/service-engine): its state
-- reduction, obligations, intents and queries.
--
-- An intent enters with a verified context. The executor checks the stream against the context,
-- loads the stream's history from the event log, folds it into the aggregate's state, decides
-- events, appends them under the caller's expected version and idempotency key, and delivers them to
-- the projections. An external effect is planned and sealed, prepared in a journal of events, claimed
-- under a lease, recovered or dispatched once, and completed.
--
-- Files:
-- Base and below: the names that all modules share, results with `?`, actions that pass a state
--   and may fail, decimal numbers, text, bytes, ordered maps.
-- Runtime/Auth: crates/service-runtime/src/auth.rs (the identifiers of `identity_type!`,
--   `VerifiedIdentity`, `RealmPolicy::enforce`).
-- Runtime/Stream, Runtime/History: crates/service-runtime/src/eventlog.rs (`StreamId`,
--   `partition_key`, versions and guards; `EventHistory::validate`, receipts).
-- Runtime/Content: crates/service-runtime/src/content.rs (`ContentId::new` as `content_id`, `MediaType::new`
--   as `media_type`, `ContentDigest::sha256` as `content_sha256`, the content lifecycle).
-- Runtime/Projection: crates/service-runtime/src/projection.rs (`deliver`).
-- Runtime/Aggregate, Runtime/Execution: crates/service-runtime/src/execution.rs (the trait
--   `Aggregate` as a record, `fold`, `execute`).
-- Effect/Plan: crates/service-runtime/src/effect.rs (`EffectPlan::prepare`, `digest`).
-- Effect/Journal: crates/service-eventlog/src/lib.rs (`load_effect` in Load; `prepare`, `claim` as
--   `claim_effect`, `complete` in Operations) with the records of effect.rs in Store.
-- Effect/Resume: crates/service-runtime/src/effect.rs (`resume_effect`).
-- Codec: crates/service-eventlog/src/lib.rs (`encode_stream_id`, `decode_stream_id`,
--   `encode_event_cursor`, `decode_event_cursor`, `feed_identity`).
-- Engine: crates/service-engine/src/lib.rs (`reduce` and `fold` in Engine).
-- Engine/Obligations: the obligations that look at entities; in Authorization
--   `run_intent_authorization`, in Lifetime the obligations that read the clock, in Run
--   `run_intent_obligations`.
-- Engine/Graph: `insert_graph_edge` and the loop over it; in Cycle `graph_has_cycle`, in Materialize
--   `graph_materialization`.
-- Engine/Ports, Engine/Plans: the resource ports with the records that pass through them, and the
--   generated plan.
-- Engine/Admission: `ServicePlan::from_json`, on the plan that serde read.
-- Engine/JsonNumber: crates/service-engine/src/json_number.rs, on a tree of JSON values.
-- Engine/Inputs, Engine/Events: `decode_inputs` and the other readings of a body; `produce_events`.
-- Engine/Claim, Engine/Stage, Engine/Intent: the claim and the append request of an intent, its staged
--   content, and `intent` with `replay_intent` and `decide_intent`.
-- Engine/Rows, Engine/Query: `projection_rows_for_partition`, `query_rows`.
-- Adapter: crates/service-eventlog/src/lib.rs (`recorded_intent`, `VerifiedAuthority`); in Store the
--   durable event store with `durable_stream`, in Layout the names and keys of projections.
-- Adapter/Events, Adapter/Projections, Adapter/Content: the ports `EventlogEvents` (`load`, `append`,
--   `authorization_state`; its `recorded_intent` as `find_recorded`, `intent_claim` as
--   `durable_claim`), `EventlogProjections` (`query` as `query_projection`) and `EventlogContent`.
-- Adapter/Projector: `ServiceProjector`, which keeps state and rows inside the append.
-- Adapter/Pages, Adapter/Service: `PageRequest::new` as `page_request`, `events_page`; the resources and
--   the operations of `EventlogService` (`intent`, `query` as `service_intent`, `service_query`,
--   `query_page`, `initialize`, `readiness`); in Service/Repeated the ports of a service as ports of the
--   engine that keep intents (`KeepsIntents` of Engine/Intent/Records).
-- Tests and below: concrete values on which the models run.
--
-- Asynchronous code is modelled as actions `W → Result E A × W` on the state that it awaits: what was
-- written before an error stays written. Integers are natural numbers; the bound of u64 is written
-- out where the code checks it (`checked_next`, the parsing of decimals). The ports of the code
-- (`EventLog`, `ProjectionSink`, `EffectJournal`, `EffectAdapter`, the durable store, and the six of
-- `ServiceResources` as one record on one state) are records of
-- operations, as are the third-party JSON encoder, the RFC 3339 parser and SHA-256; where a theorem
-- uses documented behaviour of one, a record states it (`IsLawful`, `IsReadable`, `IsWritable`,
-- `IsPrinted`, `KeepsClaims`, `KeepsIntents`, `AppendsGiven`, `IsTable`, `IsListed`, `IsServed`).
--
-- Fuel: `load_effect` runs one round for each page of 1000 events; more rounds than the stream has
-- events are enough, since each page but the last is full; so for `load` of the event port. An unpaged
-- query needs more rounds than there are entries behind its prefix, since each page before the empty one
-- has an entry, and the batch of a claim more rounds than the largest append has events. A loop of the
-- ports without rounds left is refused. The depth-first search for a cycle has one
-- round more than the graph has nodes, since the nodes on its path are all different. All other loops
-- of the models follow the structure of a list.
--
-- In Engine/Query and Adapter/Projections JSON values are any type, so their equality `json_equal` is a
-- parameter there; Engine/JsonNumber defines it on trees over any numbers. Of the numbers,
-- `IsFaithful` and `IsPrinted` state what the rewriting relies on.
-- The field `next_cursor` of a paged query stands beside the log, in `Session`.
--
-- Not modelled: the printing of a plan (`to_canonical_json`); the version 4 engine with its adapters, a
-- second program beside the one modelled here; the runtime interchange format, which is compiled from the
-- types of third-party crates; serde formats and error texts, formatting, logging; and the crates that the
-- manifest lists as left out (builder, definition compiler, HTTP, host, connectors, catalogue,
-- conformance), which generate code, read files or call frameworks.
pub mod Base
pub mod Runtime
pub mod Codec
pub mod Effect
pub mod Engine
pub mod Adapter
pub mod Tests
