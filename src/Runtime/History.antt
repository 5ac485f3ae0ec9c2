-- ===== src/Runtime/History.antt =====
-- crates/service-runtime/src/eventlog.rs: envelopes, loaded histories, append requests, receipts.
pub mod Gapless
use service_sdk.Base.{
  Bool, true, false, ℕ, String, Option, none, some, List, [], ◌∷◌, ◌++◌, eqb, not, get_last?,
  if◌then◌else◌,
}
use service_sdk.Base.Result.{Result, ok, err, ◌>>=◌}
use service_sdk.Runtime.Stream.{StreamId, StreamVersion, ExpectedVersion, stream_eq, checked_next}

pub record EventEnvelope (E : Type 0) : Type 0 where
  pub event_id : String
  pub stream : StreamId
  pub version : StreamVersion
  pub idempotency_key : String
  pub event : E

pub record EventHistory (E : Type 0) : Type 0 where
  pub stream : StreamId
  pub events : List (EventEnvelope E)

pub data HistoryInvariantError : Type 0 where
  wrong_stream : StreamId → StreamId → HistoryInvariantError
  non_contiguous_version : StreamVersion → StreamVersion → HistoryInvariantError
  version_exhausted : HistoryInvariantError

-- `last().map_or(EMPTY, version)`
abbrev pub last_version : {E : Type 0} → List (EventEnvelope E) → Option StreamVersion
last_version events = elim (get_last? events) [ none ↦ none | some e ↦ some e.version ]

unfoldable pub current_version : {E : Type 0} → EventHistory E → StreamVersion
current_version h = elim (last_version h.events) [ none ↦ 0 | some v ↦ v ]

-- The loop of `EventHistory::validate` from the version that it expects next.
validate_from :
    {E : Type 0}
    → StreamId
    → StreamVersion
    → List (EventEnvelope E)
    → Result HistoryInvariantError (Unit {0})
validate_from stream expected [] = ok tt
validate_from stream expected (e ∷ events) = elim (stream_eq e.stream stream) [
  | false ↦ err (wrong_stream stream e.stream)
  | true ↦ elim (eqb e.version expected) [
    | false ↦ err (non_contiguous_version expected e.version)
    | true ↦ elim (checked_next expected) [
      | none ↦ err version_exhausted
      | some next ↦ validate_from stream next events
    ]
  ]
]

unfoldable pub validate : {E : Type 0} → EventHistory E → Result HistoryInvariantError (Unit {0})
unfolding validate_from
validate h = validate_from h.stream 1 h.events

pub record GuardedAppend (E : Type 0) : Type 0 where
  pub stream : StreamId
  pub expected : ExpectedVersion
  pub idempotency_key : String
  pub events : List E

pub data AppendDisposition : Type 0 where
  committed replayed : AppendDisposition

pub record AppendReceipt (E : Type 0) : Type 0 where
  pub disposition : AppendDisposition
  pub events : List (EventEnvelope E)

unfoldable pub through_version : {E : Type 0} → AppendReceipt E → Option StreamVersion
through_version receipt = last_version receipt.events

pub data AppendError (X : Type 0) : Type 0 where
  version_conflict : ExpectedVersion → StreamVersion → AppendError X
  idempotency_conflict : String → AppendError X
  adapter : X → AppendError X
